-- ===== src/FileService/Schedule/Ends.antt =====
-- The turns that requests of fileservice/service.go need.
use simply_chat.Base.{
  ℕ, ◌+◌, ◌-◌, ◌≤◌, Bool, true, false, ◌≡◌, refl, List, [], ◌∷◌, Result-cases, Bool-cases, inl, inr,
  arith, ◌==◌, ==_iff, nat_eq, if◌then◌else◌,
}
use simply_chat.Postgres.{Postgres}
use simply_chat.FileService.Metadata
use simply_chat.FileService.ObjectStorage.{ObjectStorage}
use simply_chat.FileService.Service.{State, put_params, unless_not_found}
use simply_chat.FileService.Schedule.{
  Task, putting, creating, cleaning, reading_back, uploaded, asking, getting, downloaded, finding,
  marking, removing, dropping, deleted, advance, run, turn, Pool,
}

-- The most turns that a request still needs.
abbrev pub turns_left : Task → ℕ
turns_left (putting file content) = 3
turns_left (creating file) = 2
turns_left (cleaning file) = 1
turns_left (reading_back id) = 1
turns_left (uploaded r) = 0
turns_left (asking id) = 2
turns_left (getting file) = 1
turns_left (downloaded r) = 0
turns_left (finding id) = 4
turns_left (marking id file) = 3
turns_left (removing id file) = 2
turns_left (dropping id) = 1
turns_left (deleted r) = 0

-- The request has its result.
abbrev pub is_done : Task → Bool
is_done (uploaded r) = true
is_done (downloaded r) = true
is_done (deleted r) = true
is_done _ = false

-- How many turns the request has in a schedule.
abbrev pub turns_of : ℕ → List ℕ → ℕ
turns_of i [] = 0
turns_of i (j ∷ schedule) = (if i == j then 1 else 0) + turns_of i schedule

done_of_0 : (t : Task) → turns_left t ≡ 0 → is_done t ≡ true
done_of_0 (putting file content) h = absurd (omega (arith, h))
done_of_0 (creating file) h = absurd (omega (arith, h))
done_of_0 (cleaning file) h = absurd (omega (arith, h))
done_of_0 (reading_back id) h = absurd (omega (arith, h))
done_of_0 (uploaded r) h = refl
done_of_0 (asking id) h = absurd (omega (arith, h))
done_of_0 (getting file) h = absurd (omega (arith, h))
done_of_0 (downloaded r) h = refl
done_of_0 (finding id) h = absurd (omega (arith, h))
done_of_0 (marking id file) h = absurd (omega (arith, h))
done_of_0 (removing id file) h = absurd (omega (arith, h))
done_of_0 (dropping id) h = absurd (omega (arith, h))
done_of_0 (deleted r) h = refl

turns_left_most : (t : Task) → turns_left t ≤ 4
turns_left_most t = ground arith

module _ (pg : Postgres) (o : ObjectStorage) where
  -- Each turn of a request brings it nearer to its end.
  advance-turns_left :
      (t : Task) (s : State pg o) → turns_left (advance pg o t s).0 ≤ turns_left t - 1
  unfolding advance
  advance-turns_left (putting file content) s =
      elim (Result-cases (o.put_object (put_params pg o file content) s.store).0) [
        | inr (e, failed) ↦ rw failed (omega arith)
        | inl (_, done) ↦ rw done (omega arith)
      ]
  advance-turns_left (creating file) s =
      elim (Result-cases (Metadata.create pg file s.metadata).0) [
        | inr (e, failed) ↦ rw failed (omega arith)
        | inl (_, done) ↦ rw done (omega arith)
      ]
  advance-turns_left (cleaning file) s = omega arith
  advance-turns_left (reading_back id) s = omega arith
  advance-turns_left (uploaded r) s = omega arith
  advance-turns_left (asking id) s = elim (Result-cases (Metadata.get_by_id pg id s.metadata).0) [
    | inr (e, failed) ↦ rw failed (omega arith)
    | inl (_, done) ↦ rw done (omega arith)
  ]
  advance-turns_left (getting file) s =
      elim (Result-cases (o.get_object file.object_key s.store).0) [
        | inr (e, failed) ↦ rw failed (omega arith)
        | inl (_, done) ↦ rw done (omega arith)
      ]
  advance-turns_left (downloaded r) s = omega arith
  advance-turns_left (finding id) s =
      elim (Result-cases (Metadata.get_by_id_for_deletion pg id s.metadata).0) [
        | inr (e, failed) ↦ rw failed (omega arith)
        | inl (_, done) ↦ rw done (omega arith)
      ]
  advance-turns_left (marking id file) s =
      elim (Result-cases (Metadata.mark_deleted pg id s.metadata).0) [
        | inr (e, failed) ↦ rw failed (omega arith)
        | inl (_, done) ↦ rw done (omega arith)
      ]
  advance-turns_left (removing id file) s =
      elim (Result-cases (unless_not_found (o.delete_object file.object_key s.store).0)) [
        | inr (e, failed) ↦ rw failed (omega arith)
        | inl (_, done) ↦ rw done (omega arith)
      ]
  advance-turns_left (dropping id) s = omega arith
  advance-turns_left (deleted r) s = omega arith

  run-turns_left :
      (i : ℕ) (schedule : List ℕ) (p : Pool pg o)
      → turns_left ((run pg o schedule p).tasks i) ≤ turns_left (p.tasks i) - turns_of i schedule
  unfolding run
  run-turns_left i [] p = omega arith
  run-turns_left i (j ∷ schedule) p =
      let rest = run-turns_left i schedule (turn pg o j p) in
      elim (Bool-cases (i == j)) [
        | inl same ↦
            let here : turns_left ((turn pg o j p).tasks i) ≤ turns_left (p.tasks i) - 1 =
              rw (same, (==_iff i j).0 same) (advance-turns_left (p.tasks j) p.state) in
            rw same (omega (arith, rest, here))
        | inr other ↦
            let here : turns_left ((turn pg o j p).tasks i) ≡ turns_left (p.tasks i) =
              rw other refl in
            rw other (omega (arith, rest, here))
      ]

  -- A request with four turns in a schedule has its result at the end, whatever the other requests do
  -- between them and whatever fails.
  pub run-is_done :
      (i : ℕ) (schedule : List ℕ) (p : Pool pg o)
      → 4 ≤ turns_of i schedule
      → is_done ((run pg o schedule p).tasks i) ≡ true
  run-is_done i schedule p enough =
      done_of_0 ((run pg o schedule p).tasks i)
        (omega (arith, run-turns_left i schedule p, turns_left_most (p.tasks i), enough))
