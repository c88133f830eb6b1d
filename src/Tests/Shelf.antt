-- ===== src/Tests/Shelf.antt =====
-- The store of the quarantine at concrete inputs. The digest puts a byte before what it is fed.
use gatte.Base.{◌≡◌, ◌≢◌, ◌⊎◌, refl, true, false, List, [], ◌∷◌, Text, codes, some, text_eq}
use gatte.Quarantine.{Tool, safe, new_tool, approve, usable}
use gatte.Quarantine.Identity.{ToolIdentity, hash}
use gatte.Quarantine.Store.{Faults, find_row, is_named}
use gatte.Quarantine.Store.Kept.{IsShelf}
use gatte.Quarantine.Review.{manifest}
use gatte.Quarantine.Store.Evidence.{store_observes, store_forgets, IsShown}
use gatte.Quarantine.Store.Bulk.{single, store_approves_set, BulkEvent, shelf_of, told}
use gatte.Quarantine.Store.Bulk.Histories.{shelf_of-IsShelf, definition-shelf_of, usable-shelf_of}
use gatte.Quarantine.Store.Served.{gate, served_life}
use gatte.Quarantine.Store.Life.{life_after}

abbrev digest : Text → Text
digest b = 1 ∷ b

digest_full : (t : Text) → digest t ≢ []
digest_full t e = absurd cc

abbrev ti : Text
ti = codes "ti"

abbrev lookup : ToolIdentity
lookup = record {
  name = codes "ip";
  description = codes "d";
  input_schema = codes "{}";
  output_schema = [];
}

abbrev fine : Faults
fine = record { read_fails = false; write_fails = false }

-- Seen, approved with all that waits on its upstream, and a transaction that failed to commit.
abbrev seen : Tool
unfolding new_tool hash
seen = new_tool ti (codes "ip") (hash digest lookup) safe 1

abbrev shown : Text
unfolding manifest
shown = manifest digest ti (seen ∷ [])

abbrev events : List BulkEvent
unfolding shown
events =
    record {
      now = 3;
      faults = record { read_fails = false; write_fails = true };
      act = single (store_forgets ti);
    }
    ∷ record { now = 2; faults = fine; act = store_approves_set ti shown }
    ∷ record { now = 1; faults = fine; act = single (store_observes ti lookup safe) }
    ∷ []

abbrev row : Tool
unfolding approve seen
row = approve seen 2

row_found : find_row ti (codes "ip") (shelf_of digest events).tools ≡ some row
unfolding shelf_of find_row row is_named text_eq
row_found = refl

served_in_the_end : gate (find_row ti (codes "ip") (shelf_of digest events).tools) ≡ some true
unfolding shelf_of usable find_row row is_named text_eq
served_in_the_end = refl

usable-shelf_of_example :
    gate (find_row ti (codes "ip") (shelf_of digest events).tools)
    ≡ served_life ti (codes "ip") (life_after digest (told digest events) ti (codes "ip"))
usable-shelf_of_example = usable-shelf_of digest digest_full events ti (codes "ip")

shelf_of-IsShelf_example : IsShelf digest (shelf_of digest events)
shelf_of-IsShelf_example = shelf_of-IsShelf digest digest_full events

definition-shelf_of_example :
    IsShown digest (shelf_of digest events) row.observed_hash
    × ((row.approved_hash ≡ []) ⊎ IsShown digest (shelf_of digest events) row.approved_hash)
definition-shelf_of_example =
    definition-shelf_of digest digest_full events ti (codes "ip") row row_found
