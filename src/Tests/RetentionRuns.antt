-- ===== src/Tests/RetentionRuns.antt =====
-- Three versions of which two are kept: an instance of the theorem of Retention.
use xui_agent.Prelude.{◌≡◌, false, List, [], ◌∷◌, All, take, drop}
use mathlib.Core.List.{Perm}
use xui_agent.Retention.{Stamped, sort_entries, member, to_remove}
use xui_agent.Retention.Newest.{NoNewer, to_remove-Newest}

abbrev found : List Stamped
found = (b'a' ∷ [], 10) ∷ (b'b' ∷ [], 30) ∷ (b'c' ∷ [], 20) ∷ []

to_remove-Newest_example :
    Perm (sort_entries found) found
    × ((to_remove 2 [] (sort_entries found) ≡ to_remove 0 [] (drop 2 (sort_entries found)))
        × (All (λ x. All (NoNewer x) (drop 2 (sort_entries found))) (take 2 (sort_entries found))
            × All (λ t. member t [] ≡ false) (to_remove 2 [] (sort_entries found))))
to_remove-Newest_example = to_remove-Newest 2 [] found
