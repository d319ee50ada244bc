-- ===== src/Tests/Accounts.antt =====
-- The theorem on the accounts of the bridge, on a host that has them.
use bazzite_tower.Prelude.{
  ◌≡◌, refl, String, true, List, ◌=s=◌, if◌then◌else◌, member, ok, err, file_not_found, split_on,
}
use bazzite_tower.Firewall.Contracts.Installed.{Context}
use bazzite_tower.Firewall.Contracts.Units.{account_ids}
use bazzite_tower.Firewall.Contracts.Separated.{IsSeparated, account_ids-IsSeparated}

abbrev answer : List String → String
answer argv =
    if member "passwd" argv
    then "snitchwatch:x:950:951::/var/lib/snitchwatch:/usr/sbin/nologin\n"
    else if member "snitchwatch-ui" argv
    then "snitchwatch-ui:x:952:deck\n"
    else "snitchwatch:x:951:\n"

instance abbrev demo_context : Context
demo_context = record {
  stat = λ path. err file_not_found;
  read = λ path. err file_not_found;
  command = λ argv. ok (answer argv);
  is_canonical = λ path. true;
  loads = λ bytes. err file_not_found;
  sha = λ bytes. bytes;
  to_int = λ text. ok (if text =s= "950" then 950 else if text =s= "951" then 951 else 952);
}

accepted : account_ids ≡ ok (950, 951, 952, "deck")
unfolding account_ids split_on
accepted = refl

account_ids-IsSeparated_example : IsSeparated 950 951 952
account_ids-IsSeparated_example = account_ids-IsSeparated 950 951 952 "deck" accepted
