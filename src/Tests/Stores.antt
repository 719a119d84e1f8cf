-- ===== src/Tests/Stores.antt =====
-- A store with an old pair, under schedules of failures and crashes.
use relay_flow.Prelude.{String, none, some, [], ◌∷◌, err, ◌≡◌, inl, inr, refl}
use relay_flow.Store.Disk.{
  works, fails, crashes, FileSnapshot, Disk, write_hash_failed, returned, stopped, access, unlink,
}
use relay_flow.Store.Files.{
  snapshot, restore, recover_transaction, rollback_transaction, new_transaction, put_pair, put,
  remove,
}
use relay_flow.Store.Recovery.{recover}
use relay_flow.Store.Crashes.{Recovers, recover_ends}
use relay_flow.Store.Files.{restore_pair}
use relay_flow.Store.Recovery.{Ends}
use relay_flow.Store.Crashes.{IsFinal}
use relay_flow.Store.Replace.{Either}
use relay_flow.Store.Compensation.{restore_pair-Ends}
use relay_flow.Store.Replace.{Replaces, put_ends, remove_ends}

abbrev pub old : FileSnapshot
old = record { yaml = some "old"; hash = some "#old\n" }

abbrev pub at_rest : Disk
at_rest = record { pair = old; journal = none }

abbrev pub sum : String → String
sum yaml = "#new"

-- The write of the hash fails: the old pair comes back.
put_rolls_back :
    put sum "new" at_rest (works ∷ works ∷ works ∷ works ∷ works ∷ fails ∷ [])
    ≡ returned (err write_hash_failed) at_rest []
unfolding put put_pair snapshot access unlink rollback_transaction recover_transaction restore
put_rolls_back = refl

-- The process stops between the two writes.
abbrev torn : Disk
torn = record {
  pair = record { yaml = some "new"; hash = some "#old\n" };
  journal = some (new_transaction old (some "new") (some "#new\n"));
}

stops_between_writes :
    put sum "new" at_rest (works ∷ works ∷ works ∷ works ∷ works ∷ crashes ∷ []) ≡ stopped torn
unfolding put put_pair snapshot access unlink rollback_transaction recover_transaction restore
stops_between_writes = refl

recover_ends_example : Recovers old (recover torn [])
recover_ends_example = recover_ends torn [] (inr refl, inl refl)

put_ends_example :
    Replaces old
      (some "new")
      (some "#new\n")
      (put sum "new" at_rest (works ∷ works ∷ works ∷ works ∷ works ∷ crashes ∷ []))
put_ends_example =
    put_ends sum "new" at_rest (works ∷ works ∷ works ∷ works ∷ works ∷ crashes ∷ []) tt refl

remove_ends_example : Replaces old none none (remove at_rest (works ∷ works ∷ works ∷ fails ∷ []))
remove_ends_example = remove_ends at_rest (works ∷ works ∷ works ∷ fails ∷ []) tt refl

abbrev earlier : FileSnapshot
earlier = record { yaml = none; hash = none }

restore_pair-Ends_example :
    Ends
      (λ u x. IsFinal earlier x)
      (λ e x. Either old earlier x)
      (Either old earlier)
      (restore_pair earlier at_rest (works ∷ works ∷ works ∷ works ∷ crashes ∷ []))
restore_pair-Ends_example =
    restore_pair-Ends earlier at_rest (works ∷ works ∷ works ∷ works ∷ crashes ∷ []) tt refl
