-- ===== src/Tests/Fixture.antt =====
-- A host whose functions are computed, with the behaviour that the theorems ask for, and the
-- system before any trial.
use bazzite_tower.Prelude.{ℕ, ◌≡◌, refl, ap, true, false, Option, none, some, List, [], ◌∷◌, obj}
use bazzite_tower.Deny.System.{
  Kind, regular, directory, socket, Node, Place, config, bridge_socket, snapshot_dir, state_dir,
  System, Host, IsLawful,
}
use bazzite_tower.Deny.Edit.{current_action, allow}
use bazzite_tower.Deny.Safety.Views.{Safe}
use bazzite_tower.Tests.{
  loads_demo, dumps_demo, loads-dumps_demo, hash_demo, unhash_demo, unhash-hash,
  hash_demo_injective, allow_text, loads_allow,
}

abbrev pub first_of : List ℕ → Option ℕ
first_of [] = none
first_of (n ∷ ns) = some n

instance abbrev pub demo_host : Host
demo_host = record {
  loads = loads_demo;
  dumps = dumps_demo;
  sha256 = hash_demo;
  format_time = λ t. hash_demo (t ∷ []);
  parse_time = λ s. first_of (unhash_demo 0 s);
  repr = λ o. "value";
  decimal_text = λ n. hash_demo (n ∷ []);
  encoded = λ s. s;
  decoded = some;
}

pub demo_host-IsLawful : IsLawful demo_host
demo_host-IsLawful = record {
  loads-dumps = λ fs. (fs, loads-dumps_demo (obj fs), λ key v scalar. (λ h. h, λ h. h));
  parse-format = λ t. ap first_of (unhash-hash (t ∷ []));
  decoded-encoded = λ s. refl;
  sha256_injective = hash_demo_injective;
}

abbrev root_node : Kind → ℕ → List ℕ → Node
root_node kind mode bytes = record {
  kind = kind;
  uid = 0;
  gid = 0;
  mode = mode;
  xattrs = [];
  bytes = bytes;
}

abbrev pub allow_disk : Place → Option Node
allow_disk config = some (root_node regular 420 allow_text)
allow_disk state_dir = some (root_node directory 448 [])
allow_disk snapshot_dir = some (root_node directory 493 [])
allow_disk bridge_socket = some (root_node socket 384 [])
allow_disk _ = none

abbrev pub before_trial : System
before_trial = record {
  disk = allow_disk;
  asides = [];
  timer = false;
  active = true;
  loaded = some allow_text;
  now = 1000000;
  boot_id = some "boot";
  next_id = "trial";
  euid = 0;
  held = 0;
}

allow_text-is_allow : current_action allow_text ≡ allow
unfolding current_action
allow_text-is_allow = rw (loads_allow, current_action) refl

pub before_trial-Safe : Safe before_trial
before_trial-Safe = record { covered = rw allow_text-is_allow refl; backed = tt }
