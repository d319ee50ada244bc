-- ===== src/Tests/Inventories.antt =====
-- The theorems on inventories at concrete texts.
use mathlib.Core.List.{Permᴰ}
use bazzite_tower.Prelude.{
  ◌≡◌, refl, String, true, false, ◌||◌, some, List, [], ◌∷◌, ◌=s=◌, IsSorted, sorted, split_lines,
  split_on, is_empty, same_codes,
}
use bazzite_tower.Spdx.{Row, Library, rows, read_rows, parse_inventory, is_distinct, row_order}
use bazzite_tower.Spdx.Sorted.{rows_of, parse_inventory-Accepted, parse_inventory-any_order}
use bazzite_tower.Spdx.Printed.{printed, parse_inventory-printed}

instance abbrev demo_library : Library
demo_library = record {
  sha256 = λ text. "00";
  is_decimal = λ text. (text =s= "0") || (text =s= "1");
}

abbrev bash_row : Row
bash_row = record {
  name = "bash";
  epoch = "0";
  version = "5.3";
  release = "2.fc44";
  arch = "x86_64";
}

abbrev abrt_row : Row
abrt_row = record {
  name = "abrt";
  epoch = "1";
  version = "2.17";
  release = "9.fc44";
  arch = "x86_64";
}

abbrev one_order : String
one_order = "bash\t0\t5.3\t2.fc44\tx86_64\nabrt\t1\t2.17\t9.fc44\tx86_64\n"

abbrev other_order : String
other_order = "abrt\t1\t2.17\t9.fc44\tx86_64\nbash\t0\t5.3\t2.fc44\tx86_64"

one_order_accepted : parse_inventory one_order ≡ rows (abrt_row ∷ bash_row ∷ [])
unfolding parse_inventory split_lines split_on read_rows same_codes
one_order_accepted = refl

parse_inventory-Accepted_example :
    IsSorted (abrt_row ∷ bash_row ∷ [])
    × (is_distinct (abrt_row ∷ bash_row ∷ []) ≡ true)
    × ((qs : List Row) × (rows_of (split_lines one_order) ≡ some qs)
        × Permᴰ qs (abrt_row ∷ bash_row ∷ [])
        × (is_empty qs ≡ false))
parse_inventory-Accepted_example =
    parse_inventory-Accepted one_order (abrt_row ∷ bash_row ∷ []) one_order_accepted

swapped_lines : Permᴰ (split_lines one_order) (split_lines other_order)
unfolding split_lines
swapped_lines = Permᴰ.swap refl refl

parse_inventory-any_order_example : parse_inventory other_order ≡ rows (abrt_row ∷ bash_row ∷ [])
parse_inventory-any_order_example =
    parse_inventory-any_order one_order other_order (abrt_row ∷ bash_row ∷ []) swapped_lines
      one_order_accepted

parse_inventory-printed_example :
    parse_inventory (printed (bash_row ∷ abrt_row ∷ [])) ≡ rows (sorted (bash_row ∷ abrt_row ∷ []))
unfolding same_codes
parse_inventory-printed_example = parse_inventory-printed bash_row (abrt_row ∷ []) refl refl
