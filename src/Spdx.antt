-- ===== src/Spdx.antt =====
-- ci/rpm-inventory-spdx.py: the inventory of installed packages, and the SPDX document of it.
pub mod Sorted
pub mod Printed
use Prim.Native.String.{◌++◌ as ◌<>◌}
use bazzite_tower.Prelude.{
  ℕ, suc, String, ◌≡◌, refl, ap, Bool, true, false, ◌&&◌, ◌||◌, not, List, [], ◌∷◌, length, all,
  ◌==◌, if◌then◌else◌, ◌=s=◌, Ordered, text_order, lex_order, order_by, sorted, split_on,
  split_lines, join, text_take, is_blank, is_stripped, Json, bool, str, arr, obj, Items, nil, cons,
  Fields, end, field, get_or,
}

-- `(name, epoch, version, release, arch)`
pub record Row : Type 0 where
  pub name : String
  pub epoch : String
  pub version : String
  pub release : String
  pub arch : String

abbrev pub texts_of : Row → List String
texts_of r = r.name ∷ r.epoch ∷ r.version ∷ r.release ∷ r.arch ∷ []

pub texts_of_apart : (a b : Row) → texts_of a ≡ texts_of b → a ≡ b
texts_of_apart a b e = λ i. record {
  name = get_or (e i) 0 "";
  epoch = get_or (e i) 1 "";
  version = get_or (e i) 2 "";
  release = get_or (e i) 3 "";
  arch = get_or (e i) 4 "";
}

-- The order of tuples of texts.
instance abbrev pub row_order : Ordered Row
row_order = order_by lex_order texts_of texts_of_apart

-- What `parse_inventory` returns, or the ValueError that it raises.
pub data Inventory : Type 0 where
  rows : List Row → Inventory
  invalid_row : ℕ → Inventory
  invalid_epoch : ℕ → Inventory
  empty : Inventory
  duplicate : Inventory

-- `hashlib.sha256(text.encode("utf-8")).hexdigest()` and `text.isdecimal()`
pub record Library : Type 0 where
  pub sha256 : String → String
  pub is_decimal : String → Bool

-- A field that is not empty and has no white space at an end.
abbrev pub is_field : String → Bool
is_field text = not (is_blank text) && is_stripped text

abbrev pub same_row : Row → Row → Bool
same_row a b =
    (a.name =s= b.name)
    && ((a.epoch =s= b.epoch)
        && ((a.version =s= b.version) && ((a.release =s= b.release) && (a.arch =s= b.arch))))

abbrev pub holds_row : Row → List Row → Bool
holds_row r [] = false
holds_row r (s ∷ rs) = same_row r s || holds_row r rs

-- `len(set(records)) == len(records)`
abbrev pub is_distinct : List Row → Bool
is_distinct [] = true
is_distinct (r ∷ rs) = not (holds_row r rs) && is_distinct rs

abbrev pub with_row : Row → Inventory → Inventory
with_row r (rows rs) = rows (r ∷ rs)
with_row r refused = refused

module _ ⦃library : Library⦄ where
  -- The row of a line's fields, in front of the rows that follow.
  abbrev pub read_row : ℕ → List String → Inventory → Inventory
  read_row n (name ∷ epoch ∷ version ∷ release ∷ arch ∷ []) rest =
      if all is_field (name ∷ epoch ∷ version ∷ release ∷ arch ∷ [])
      then (if library.is_decimal epoch
          then with_row
              (record {
                name = name;
                epoch = epoch;
                version = version;
                release = release;
                arch = arch;
              })
              rest
          else invalid_epoch n)
      else invalid_row n
  read_row n _ rest = invalid_row n

  unfoldable pub read_rows : ℕ → List String → Inventory
  read_rows n [] = rows []
  read_rows n (line ∷ lines) = read_row n (split_on 9 line) (read_rows (suc n) lines)

  abbrev pub checked : Inventory → Inventory
  checked (rows []) = empty
  checked (rows (r ∷ rs)) = if is_distinct (r ∷ rs) then rows (sorted (r ∷ rs)) else duplicate
  checked refused = refused

  unfoldable pub parse_inventory : String → Inventory
  unfolding split_lines split_on read_rows
  parse_inventory text = checked (read_rows 1 (split_lines text))

  unfoldable pub package_id : Row → String
  package_id r = "SPDXRef-RPM-" <> text_take 16 (library.sha256 (join "\t" (texts_of r)))

  -- `"\n".join("\t".join(record) for record in records)`
  abbrev pub tab_lines : List Row → List String
  tab_lines [] = []
  tab_lines (r ∷ rs) = join "\t" (texts_of r) ∷ tab_lines rs

  abbrev pub version_info : Row → String
  version_info r = r.epoch <> (":" <> (r.version <> ("-" <> (r.release <> ("." <> r.arch)))))

  unfoldable pub package_of : Row → Json
  unfolding package_id
  package_of r = obj (
      field "SPDXID" (str (package_id r)) (
        field "name" (str r.name) (
          field "versionInfo" (str (version_info r)) (
            field "downloadLocation" (str "NOASSERTION") (
              field "filesAnalyzed" (bool false) (
                field "licenseConcluded" (str "NOASSERTION") (
                  field "licenseDeclared" (str "NOASSERTION")
                    (field "copyrightText" (str "NOASSERTION") end))))))))

  unfoldable pub relationship : Row → Json
  unfolding package_id
  relationship r = obj (
      field "spdxElementId" (str "SPDXRef-DOCUMENT") (
        field "relationshipType" (str "DESCRIBES")
          (field "relatedSpdxElement" (str (package_id r)) end)))

  unfoldable pub packages : List Row → Items
  unfolding package_of
  packages [] = nil
  packages (r ∷ rs) = cons (package_of r) (packages rs)

  unfoldable pub relationships : List Row → Items
  unfolding relationship
  relationships [] = nil
  relationships (r ∷ rs) = cons (relationship r) (relationships rs)

  unfoldable pub make_document : List Row → String → Json
  unfolding packages relationships
  make_document rs created =
      let canonical = join "\n" (tab_lines rs) <> ("\ncreated=" <> created) in
      obj (
        field "spdxVersion" (str "SPDX-2.3") (
          field "dataLicense" (str "CC0-1.0") (
            field "SPDXID" (str "SPDXRef-DOCUMENT") (
              field "name" (str "bazzite-tower installed RPM inventory") (
                field "documentNamespace"
                  (str (
                    "https://spdx.org/spdxdocs/bazzite-tower-rpm-inventory-"
                    <> library.sha256 canonical))
                  (field "creationInfo"
                    (obj (
                      field "created" (str created) (
                        field "creators"
                          (arr (cons (str "Tool: bazzite-tower-rpm-inventory-spdx-1.0.0") nil))
                          end)))
                    (field "packages" (arr (packages rs))
                      (field "relationships" (arr (relationships rs)) end))))))))
