-- ===== src/Tests/Policies.antt =====
-- A refresh policy that is accepted.
use bazzite_tower.Prelude.{String, true, some, num, str, obj, Fields, end, field}
use bazzite_tower.Refresh.Policy.{Dates, reviewed_profiles, reviewed_bootstrap}

abbrev pub demo_sha : String
demo_sha = "07f48addb866ce74797ba620f7883ee4b4271984"

-- A library that accepts every time and prints one.
instance abbrev pub demo_dates : Dates
demo_dates = record {
  fromisoformat = λ cs. some (record { has_zone = true; utc_text = "2026-11-07T01:33:27Z" });
}

abbrev pub whole_policy : Fields
whole_policy = field "schemaVersion" (num 1) (
    field "repository" (str "bearyjd/bazzite-tower") (
      field "ref" (str "refs/heads/main") (
        field "destination" (str "ghcr.io/bearyjd/bazzite-tower") (
          field "upstream" (str "ghcr.io/ublue-os/bazzite-nvidia-open") (
            field "upstreamTag" (str "stable") (
              field "minimumBaseVersion" (str "44.20261023") (
                field "minimumKernel" (str "7.2.9-ogc3.1.fc44") (
                  field "sourceCommit" (str demo_sha) (
                    field "sourceTree" (str demo_sha) (
                      field "sourceCreated" (str "2026-11-07T01:33:27Z") (
                        field "profiles" reviewed_profiles (
                          field "bootstrap" reviewed_bootstrap (
                            field "nativeSource"
                              (obj (
                                field "commit" (str demo_sha) (
                                  field "tree" (str demo_sha)
                                    (field "submoduleCommit" (str demo_sha) end))))
                              (field "daemonSource"
                                (obj
                                  (field "commit" (str demo_sha) (field "tree" (str demo_sha) end)))
                                (field "daemonPatchSha256"
                                  (str
                                    "4b52c645864650acffa8244080800e442d02ca2a2efd90f1b0dd2dd0a8cbeaa8")
                                  end)))))))))))))))
