-- ===== src/Tests/Gates.antt =====
-- The theorem on the gate in a world in which it passes.
use bazzite_tower.Prelude.{
  ◌≡◌, ◌↔◌, refl, String, true, false, [], ◌∷◌, codes, strip_prefix, ◌=s=◌, if◌then◌else◌,
}
use bazzite_tower.Gate.{
  Source, Input, single, folder, exited, ended, World, copy, copy_all, adapt, adapt_all, snapshot,
  execute, first_error, run_checks, run,
}
use bazzite_tower.Gate.Verdict.{is_ready, run-is_ready}

abbrev source_of : String → String → String → Source
source_of relative name text = record {
  relative = relative;
  name = name;
  is_link = false;
  is_directory = false;
  bytes = codes text;
  mode = 493;
}

abbrev demo_tree : String → Input
demo_tree name =
    if name =s= "build_files/firewall"
    then folder (
        source_of "build_files/firewall/snitchwatch-system-toolchain.sh"
          "snitchwatch-system-toolchain.sh" "rm -rf -- \"$tmp\""
        ∷ [])
    else if name =s= "tests/test-snitchwatch-toolchain.sh"
    then single (
        source_of "tests/test-snitchwatch-toolchain.sh" "test-snitchwatch-toolchain.sh"
          "rm -rf -- \"$T\"; rm -rf -- \"$T/work\"; rm -rf -- \"$T/work\"")
    else single (source_of name name "text")

instance abbrev demo_world : World
demo_world = record {
  which = λ tool. true;
  process = λ command. ended (exited 0) "ok\n";
  isolation = ended (exited 0) "";
  tree = demo_tree;
  digest = λ bytes. "00";
  manifest_digest = λ records adapted. "11";
  lower = λ text. text;
}

run_of_demo : run.exit_code ≡ 0
unfolding run run_checks execute first_error snapshot copy copy_all adapt_all adapt strip_prefix
run_of_demo = refl

run-is_ready_example : (run.exit_code ≡ 0) ↔ (is_ready ≡ true)
run-is_ready_example = run-is_ready
