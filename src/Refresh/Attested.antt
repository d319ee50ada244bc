-- ===== src/Refresh/Attested.antt =====
-- ci/base-refresh.py: the accepted source, and the signed attestations of the artifacts.
pub mod Bound
use bazzite_tower.Prelude.{
  ℕ, String, ◌<>◌, Bool, true, false, ◌&&◌, not, Option, none, some, List, [], ◌∷◌, ◌++◌,
  if◌then◌else◌, ◌=s=◌, is_blank, Json, str, arr, obj, Fields, field, end, get_field, item, as_dict,
  json_eq, is_str, Result, ok, err, require, split_lines, text_drop, text_strip, ◌>>=◌, ◌>>◌,
}
use bazzite_tower.Refresh.Policy.{Dates, parse_created}
use bazzite_tower.Refresh.Previous.{destination, predicate, listed, has, and_then}
use bazzite_tower.Refresh.Baseline.{bound_to, subjects_of}
use bazzite_tower.Refresh.Evidence.{trust_paths}
use bazzite_tower.Refresh.Validate.{policy_of}
use bazzite_tower.Publication.{World, dict, decode, read, read_json, file_sha}
use bazzite_tower.Publication.Candidate.{git_is, joined}

-- `base64.b64decode(payload, validate=True)`
pub record Payloads : Type 0 where
  pub b64decode : Json → Result String

-- `{k: value[v] for k, v in pairs}`
abbrev pub renamed : List (String × String) → Fields → Result Fields
renamed [] value = ok end
renamed ((key, from) ∷ rest) value = do
  v ← item from value
  others ← renamed rest value
  ok (field key v others)

-- `raw if isinstance(raw, list) else [raw]`
abbrev pub items_of : Json → List Json
items_of (arr xs) = listed xs
items_of v = v ∷ []

abbrev pub attests : String → Json → String → Fields → Result Bool
attests kind expected sha v =
    and_then (has "predicateType" (str kind) v && has "predicate" expected v)
      (do subjects ← subjects_of (get_field "subject" v); ok (bound_to sha subjects))

unfoldable pub any_attests : String → Json → String → List Json → Result Bool
unfolding json_eq
any_attests kind expected sha [] = ok false
any_attests kind expected sha (v ∷ vs) =
    let rest = any_attests kind expected sha vs in
    (do fs ← as_dict v; here ← attests kind expected sha fs; if here then ok true else rest)

abbrev pub predicate_text : String
predicate_text = "https://github.com/bearyjd/bazzite-tower/attestations/base-refresh/v1"

-- The name, the kind and the file of each attestation.
abbrev pub attested_files : List (String × String × String)
attested_files =
    ("sbom", "https://spdx.dev/Document", "sbom.json")
    ∷ ("provenance", predicate_text, "build-provenance.json")
    ∷ []

module _ ⦃world : World⦄ where
  abbrev pub same_files : String → String → List (String × String) → Result (Unit {0})
  same_files root source_root [] = ok tt
  same_files root source_root ((name, path) ∷ rest) = do
    reviewed ← file_sha (joined root path)
    found ← file_sha (joined source_root path)
    require (reviewed =s= found) "accepted source trust policy/key differs from control"
    same_files root source_root rest

  -- The pins of the accepted source against the policy's.
  unfoldable pub check_pins : Fields → String → Result (Unit {0})
  unfolding decode read json_eq
  check_pins p source_root = do
    pins_value ← read_json (joined source_root "build_files/firewall/snitchwatch-system-pins.json")
    daemon_value ←
        read_json (joined source_root "build_files/firewall/snitchwatch-system-daemon-pins.json")
    pins ← as_dict pins_value
    native ←
        renamed
          (("commit", "sourceCommit")
            ∷ ("tree", "sourceTree")
            ∷ ("submoduleCommit", "submoduleCommit")
            ∷ [])
          pins
    expected ← item "nativeSource" p
    require (json_eq (obj native) expected) "accepted native source pins differ from policy"
    daemon ← as_dict daemon_value
    found ← renamed (("commit", "sourceCommit") ∷ ("tree", "sourceTree") ∷ []) daemon
    daemon_expected ← item "daemonSource" p
    patch ← item "patchSha256" daemon
    patch_expected ← item "daemonPatchSha256" p
    require (json_eq (obj found) daemon_expected && json_eq patch patch_expected)
        "accepted daemon source/patch differs from policy"

  unfoldable pub source : ⦃dates : Dates⦄ → String → String → Result Fields
  unfolding policy_of file_sha check_pins
  source root source_root = do
    p ← policy_of root
    at_commit ← git_is source_root ("rev-parse" ∷ "HEAD" ∷ []) "sourceCommit" p
    at_tree ←
        (if at_commit
          then git_is source_root ("rev-parse" ∷ "HEAD^{tree}" ∷ []) "sourceTree" p
          else ok false)
    require at_tree "accepted product source/tree mismatch"
    status ← world.git source_root ("status" ∷ "--porcelain" ∷ "--untracked-files=all" ∷ [])
    require (is_blank status) "dirty accepted product source"
    date ← world.git source_root ("log" ∷ "-1" ∷ "--format=%cI" ∷ [])
    created ← parse_created (str date)
    expected ← item "sourceCreated" p
    require (is_str created expected) "source timestamp mismatch"
    same_files root source_root trust_paths
    check_pins p source_root
    ok p

module _ ⦃world : World⦄ ⦃payloads : Payloads⦄ where
  abbrev pub payloads_of : List Json → Result (List Json)
  payloads_of [] = ok []
  payloads_of (v ∷ vs) = do
    fs ← as_dict v
    payload ← item "payload" fs
    text ← payloads.b64decode payload
    document ← decode (world.utf8_size text) text
    others ← payloads_of vs
    ok (document ∷ others)

  abbrev pub envelopes_of_line : String → Result (List Json)
  envelopes_of_line line =
      if is_blank (text_strip line)
      then ok []
      else (do raw ← decode (world.utf8_size line) line; payloads_of (items_of raw))

  unfoldable pub envelopes_of : List String → Result (List Json)
  unfolding decode
  envelopes_of [] = ok []
  envelopes_of (line ∷ lines) = do
    found ← envelopes_of_line line
    others ← envelopes_of lines
    ok (found ++ others)

  unfoldable pub envelopes : String → Result (List Json)
  unfolding read split_lines envelopes_of
  envelopes path = do n ← read path; envelopes_of (split_lines n.bytes)

  unfoldable pub attestations_of :
      List (String × String × String) → String → String → String → Result (Unit {0})
  unfolding read decode envelopes any_attests
  attestations_of [] data_root verified digest = ok tt
  attestations_of ((name, kind, file) ∷ rest) data_root verified digest = do
    expected ← read_json (joined data_root file)
    found ← envelopes (joined verified (name <> ".json"))
    holds ← any_attests kind expected (text_drop 7 digest) found
    require holds "signed predicate/subject substitution"
    attestations_of rest data_root verified digest

  unfoldable pub attestations : String → String → String → Result (Unit {0})
  unfolding attestations_of
  attestations data_root verified digest = attestations_of attested_files data_root verified digest
