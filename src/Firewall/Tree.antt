-- ===== src/Firewall/Tree.antt =====
-- build_files/firewall/snitchwatch-system-daemon-verify.py and snitchwatch-system-verify.py: the tree
-- that they read, and the Python operations on paths, texts and documents that they share.
use Prim.Native.Char.{code}
use bazzite_tower.Prelude.{
  ℕ, String, Bool, ◌&&◌, ◌||◌, none, some, List, [], ◌∷◌, map, ◌==◌, if◌then◌else◌, ◌=s=◌, codes,
  same_codes, is_white, is_blank, all, any, member, attach, split_on, starts_with, join, Json, null,
  str, Fields, end, field, get_field, as_dict, json_eq, Result, ok, err, value_error, require,
  key_error, ◌>>=◌, ◌>>◌,
}
use bazzite_tower.Refresh.Policy.{is_hex_text}

-- What `path.stat()` says: whether the file is regular, its permission bits and its owner.
pub record Stat : Type 0 where
  pub is_regular : Bool
  pub mode : ℕ
  pub uid : ℕ
  pub gid : ℕ

-- The tree below the root, by paths without the first slash, and the libraries: bytes are texts of
-- characters below 256. `is_live` is `root == Path('/')`; `below` is `sorted(base.rglob('*'))`,
-- each path as its parts below the base; `decoded` and `encoded` are UTF-8.
pub record Tree : Type 0 where
  pub is_live : Bool
  pub is_symlink : String → Bool
  pub stat : String → Result Stat
  pub read_bytes : String → Result String
  pub is_dir : String → Bool
  pub is_file : String → Bool
  pub below : String → List (List String)
  pub readlink : String → Result String
  pub loads : String → Result Json
  pub sha : String → String
  pub decoded : String → Result String
  pub encoded : String → String
  pub lower : String → String

-- `Path(name).parts` without the first slash
abbrev pub named_parts : List String → List String
named_parts [] = []
named_parts (p ∷ ps) =
    let rest = named_parts ps in if is_blank p || (p =s= ".") then rest else p ∷ rest

abbrev pub parts_of : String → List String
parts_of name = named_parts (split_on 47 name)

-- The path and its parents below the root, by their parts.
abbrev pub parents : List String → List (List String)
parents [] = []
parents (p ∷ ps) = (p ∷ []) ∷ map (λ q. p ∷ q) (parents ps)

abbrev pub last_part : List String → String
last_part [] = ""
last_part (p ∷ []) = p
last_part (p ∷ q ∷ ps) = last_part (q ∷ ps)

-- `Path(name).name`
abbrev pub base_name : String → String
base_name name = last_part (parts_of name)

-- `name.lstrip('/')`
abbrev pub without_slashes : String → String
without_slashes String.[] = String.[]
without_slashes (String.◌∷◌ c s) =
    let rest = without_slashes s in if code c == 47 then rest else String.◌∷◌ c s

-- `root / name.lstrip('/')`, as a path below the root
abbrev pub relative : String → String
relative name = join "/" (parts_of name)

-- `text.endswith(suffix)`
abbrev pub ends_codes : List ℕ → List ℕ → Bool
ends_codes ps [] = same_codes ps []
ends_codes ps (c ∷ cs) = same_codes ps (c ∷ cs) || ends_codes ps cs

abbrev pub ends_with : String → String → Bool
ends_with suffix s = ends_codes (codes suffix) (codes s)

-- `text.split()`
abbrev pub white_parts : String → List String
white_parts String.[] = String.[] ∷ []
white_parts (String.◌∷◌ c s) =
    let rest = white_parts s in if is_white (code c) then String.[] ∷ rest else attach c rest

abbrev pub without_blank : List String → List String
without_blank [] = []
without_blank (s ∷ ss) = let rest = without_blank ss in if is_blank s then rest else s ∷ rest

abbrev pub words : String → List String
words s = without_blank (white_parts s)

-- `d.get(key)`
abbrev pub value_of : String → Fields → Json
value_of k fs = elim (get_field k fs) [ none ↦ null | some v ↦ v ]

-- `d.get(key) == value`
abbrev pub get_eq : String → Json → Fields → Bool
get_eq k v fs = json_eq v (value_of k fs)

-- `d.get(key, {})`, of which a dict is needed
abbrev pub get_dict : String → Fields → Result Fields
get_dict k fs = elim (get_field k fs) [ none ↦ ok end | some v ↦ as_dict v ]

-- `set(d) == {...}`
abbrev pub equal_keys : List String → List String → Bool
equal_keys names found = all (λ k. member k found) names && all (λ k. member k names) found

-- `isinstance(expected, str) and re.fullmatch('[0-9a-f]{64}', expected)`
abbrev pub as_digest : String → Json → Result String
as_digest message (str s) = require (is_hex_text 64 (codes s)) message >> ok s
as_digest message _ = err (value_error message)

-- `contents[name]`
abbrev pub Contents : Type 0
Contents = List (String × String)

abbrev pub content : String → Contents → Result String
content name [] = err (key_error name)
content name ((j, bytes) ∷ rest) = if j =s= name then ok bytes else content name rest

-- `b'\x7fELF\x02\x01'`
abbrev pub is_elf64 : String → Bool
is_elf64 bytes = starts_with "\u{7f}ELF\u{2}\u{1}" bytes

-- The files of an inventory, read and compared with their digests.
module _ (read : String → Result String) (sha : String → String) where
  unfoldable pub read_inventory : String → (String → String) → Fields → Result Contents
  read_inventory invalid mismatch end = ok []
  read_inventory invalid mismatch (field name expected fs) = do
    hash ← as_digest invalid expected
    bytes ← read name
    require (sha bytes =s= hash) (mismatch name)
    rest ← read_inventory invalid mismatch fs
    ok ((name, bytes) ∷ rest)

module _ ⦃tree : Tree⦄ where
  -- The loop over `cursor`: whether the path or one of its parents is a link.
  abbrev pub has_link : String → Bool
  has_link name = any (λ q. tree.is_symlink (join "/" q)) (parents (parts_of name))

  -- `json.loads(bytes)`, of which a dict is needed: any other document fails at its first `.get`.
  abbrev pub load_dict : String → Result Fields
  load_dict bytes = do v ← tree.loads bytes; as_dict v
