-- ===== src/Desired/Replay.antt =====
-- A batch that arrives again changes nothing.
use workspace_zulip_bridge.Common.{
  ℕ, String, Bool, true, false, ◌||◌, Option, none, some, List, [], ◌∷◌, str_eq, eq_iff, ltb, ◌≡◌,
  refl, ap, ◌∙◌, arith, Bool-cases, inl, inr, All, All-mono,
}
use workspace_zulip_bridge.Queue.Types.{ok}
use workspace_zulip_bridge.Queue.Raises.{bind_ok}
use workspace_zulip_bridge.Desired.{Change, DesiredRow, ControlStore, at_resource, find_resource}
use workspace_zulip_bridge.Desired.Validate.{is_resource_type, validate_changes}
use workspace_zulip_bridge.Desired.Apply.{
  put_resource, is_upsert, changed_row, apply_row, apply_change, apply_all, apply_desired_changes,
}
use workspace_zulip_bridge.Desired.Fence.{newer, find-put_resource, apply_change-IsOffered}

-- The stored version is not older than the one that the change brings.
abbrev IsCovered : ControlStore → Change → Type 0
IsCovered s change =
    (uuid : ℕ) × (generation : ℕ) × (row : DesiredRow) × (change.resource_uuid ≡ some uuid)
    × (change.generation ≡ some generation)
    × (is_resource_type change.resource_type ≡ true)
    × ((is_upsert change || str_eq change.operation "delete") ≡ true)
    × (find_resource change.resource_type uuid s.resources ≡ some row)
    × (ltb row.generation generation ≡ false)

newer_covers :
    (stored : Option DesiredRow) (new : DesiredRow)
    → (row : DesiredRow) × (newer stored new ≡ some row)
      × (ltb row.generation new.generation ≡ false)
newer_covers none new = (new, refl, ground arith)
newer_covers (some old) new = elim (Bool-cases (ltb old.generation new.generation)) [
  | inl e ↦ (new, rw e refl, ground arith)
  | inr e ↦ (old, rw e refl, e)
]

newer_keeps :
    (old new : DesiredRow) (generation : ℕ)
    → ltb old.generation generation ≡ false
    → (row : DesiredRow) × (newer (some old) new ≡ some row)
      × (ltb row.generation generation ≡ false)
newer_keeps old new generation h = elim (Bool-cases (ltb old.generation new.generation)) [
  | inl e ↦ (new, rw e refl, ground arith)
  | inr e ↦ (old, rw e refl, h)
]

own_key :
    (change : Change) (uuid generation : ℕ)
    → at_resource change.resource_type uuid (changed_row change uuid generation) ≡ true
own_key change uuid generation = ground (arith, eq_iff change.resource_type change.resource_type)

apply_change-IsCovered :
    (change : Change) (now : ℕ) (s t : ControlStore)
    → apply_change change now s ≡ ok t
    → IsCovered t change
apply_change-IsCovered change now s t h =
    let (uuid, generation, e, f, known, valid, rows) = apply_change-IsOffered change now s t h in
    let (row, found, fresh) =
      newer_covers (find_resource change.resource_type uuid s.resources)
        (changed_row change uuid generation) in
    let stored =
      ap (find_resource change.resource_type uuid) rows
      ∙ find-put_resource change.resource_type uuid (changed_row change uuid generation)
          s.resources in
    (
      uuid,
      generation,
      row,
      e,
      f,
      known,
      valid,
      (rw (own_key change uuid generation) at stored) ∙ found,
      fresh,
    )

kept-IsCovered :
    (change other : Change) (now : ℕ) (s t : ControlStore)
    → apply_change other now s ≡ ok t
    → IsCovered s change
    → IsCovered t change
kept-IsCovered change other now s t h (uuid, generation, row, e, f, known, valid, found, fresh) =
    let (held, brought, _, _, _, _, rows) = apply_change-IsOffered other now s t h in
    let stored =
      ap (find_resource change.resource_type uuid) rows
      ∙ find-put_resource change.resource_type uuid (changed_row other held brought) s.resources in
    elim (Bool-cases (at_resource change.resource_type uuid (changed_row other held brought))) [
      | inl g ↦
          let (kept, e', fresh') =
            newer_keeps row (changed_row other held brought) generation fresh in
          (uuid, generation, kept, e, f, known, valid, (rw (g, found) at stored) ∙ e', fresh')
      | inr g ↦ (uuid, generation, row, e, f, known, valid, rw (g, found) at stored, fresh)
    ]

kept-All :
    (changes later : List Change) (now : ℕ) (s t : ControlStore)
    → apply_all later now s ≡ ok t
    → All (IsCovered s) changes
    → All (IsCovered t) changes
unfolding apply_all
kept-All changes [] now s t h covered = let kept : s ≡ t = cc h in rw⁻¹ kept covered
kept-All changes (other ∷ later) now s t h covered =
    let (u, first, rest) = bind_ok (apply_change other now s) _ t h in
    kept-All changes later now u t rest (
      All-mono (IsCovered s) (IsCovered u) (λ change c. kept-IsCovered change other now s u first c)
        changes covered)

apply_all-IsCovered :
    (changes : List Change) (now : ℕ) (s t : ControlStore)
    → apply_all changes now s ≡ ok t
    → All (IsCovered t) changes
unfolding apply_all
apply_all-IsCovered [] now s t h = tt
apply_all-IsCovered (change ∷ changes) now s t h =
    let (u, first, rest) = bind_ok (apply_change change now s) _ t h in
    (
      (kept-All (change ∷ []) changes now u t rest
          (apply_change-IsCovered change now s u first, tt)).0,
      apply_all-IsCovered changes now u t rest,
    )

put_resource_stale :
    (new row : DesiredRow) (rows : List DesiredRow)
    → find_resource new.resource_type new.resource_uuid rows ≡ some row
    → ltb row.generation new.generation ≡ false
    → (put_resource new rows).0 ≡ false
unfolding find_resource put_resource
put_resource_stale new row [] h k = absurd (cc h)
put_resource_stale new row (first ∷ rows) h k =
    elim (Bool-cases (at_resource new.resource_type new.resource_uuid first)) [
      | inl e ↦ let same : first ≡ row = cc (rw (e, find_resource) at h) in rw (e, same, k) refl
      | inr e ↦ rw e (put_resource_stale new row rows (rw (e, find_resource) at h) k)
    ]

apply_row_stale :
    (change : Change) (uuid generation now : ℕ) (s : ControlStore) (put : Bool × List DesiredRow)
    → put.0 ≡ false
    → apply_row change uuid generation now s put ≡ ok s
unfolding apply_row
apply_row_stale change uuid generation now s (false, rows) h = refl
apply_row_stale change uuid generation now s (true, rows) h = absurd (cc h)

apply_covered :
    (change : Change) (now : ℕ) (s : ControlStore)
    → IsCovered s change
    → apply_change change now s ≡ ok s
unfolding apply_change
apply_covered change now s (uuid, generation, row, e, f, known, valid, found, fresh) =
    rw (e, f, known, valid)
      (apply_row_stale change uuid generation now s _
        (put_resource_stale (changed_row change uuid generation) row s.resources found fresh))

apply_all_covered :
    (changes : List Change) (now : ℕ) (s : ControlStore)
    → All (IsCovered s) changes
    → apply_all changes now s ≡ ok s
unfolding apply_all
apply_all_covered [] now s h = refl
apply_all_covered (change ∷ changes) now s h =
    rw (apply_covered change now s h.0) (apply_all_covered changes now s h.1)

cursor-IsCovered :
    (cursor : String) (s : ControlStore) (changes : List Change)
    → All (IsCovered s) changes
    → All (IsCovered (record s { control_cursor = cursor })) changes
cursor-IsCovered cursor s changes =
    All-mono (IsCovered s) (IsCovered (record s { control_cursor = cursor })) (λ change c. c)
      changes

-- A batch that was applied, applied once more at whatever time, returns, and changes no table: the
-- effects of its changes on mappings, cursors, events and accounts are not repeated.
pub apply_desired_changes_again :
    (changes : List Change) (cursor : String) (now later : ℕ) (s t : ControlStore)
    → apply_desired_changes changes cursor now s ≡ ok t
    → apply_desired_changes changes cursor later t ≡ ok t
unfolding apply_desired_changes
apply_desired_changes_again changes cursor now later s t h =
    let (u, valid, applied) = bind_ok (validate_changes changes) _ t h in
    let (v, all, done) = bind_ok (apply_all changes now s) _ t applied in
    let moved : record v { control_cursor = cursor } ≡ t = cc done in
    let again =
      apply_all_covered changes later (record v { control_cursor = cursor })
        (cursor-IsCovered cursor v changes (apply_all-IsCovered changes now s v all)) in
    rw⁻¹ moved (rw (valid, again) refl)
