-- ===== src/Desired/Fence.antt =====
-- The generation fence: the rows of desired_resources are the newest versions that arrived.
use workspace_zulip_bridge.Common.{
  ℕ, String, Bool, true, false, ◌&&◌, ◌||◌, Option, none, some, List, [], ◌∷◌, ◌==◌, str_eq, eq_iff,
  ltb, if◌then◌else◌, ◌≡◌, refl, sym, ap, ◌∙◌, subst, arith, Bool-cases, inl, inr,
}
use workspace_zulip_bridge.Queue.Types.{ok, ◌>>=◌, ◌>>◌, require}
use workspace_zulip_bridge.Queue.Raises.{Holds, Holds-any, Holds-if, Holds-ok, bind_ok, require_ok}
use workspace_zulip_bridge.Accounts.Breaker.{current_reset, reconcile_generation}
use workspace_zulip_bridge.Desired.{
  Body, Change, DesiredRow, ControlStore, at_resource, find_resource,
}
use workspace_zulip_bridge.Desired.Validate.{is_resource_type, validate_changes}
use workspace_zulip_bridge.Desired.Project.{materialize_workspace_projection}
use workspace_zulip_bridge.Desired.Apply.{
  reset_tables, reconcile_account, drop_cursors, put_resource, tombstone_before, is_replaced,
  install_assignment, is_upsert, upserted_body, changed_row, account_upserted, account_effects,
  assignment_upserted, assignment_effects, change_effects, uuid_column, int_of, apply_row,
  apply_change, apply_all, apply_desired_changes,
}

-- The store has these rows of desired_resources.
abbrev HasRows : List DesiredRow → ControlStore → Type 0
HasRows rows t = t.resources ≡ rows

reconcile_account-HasRows :
    (account generation reset now : ℕ) (s : ControlStore)
    → Holds (HasRows s.resources) (reconcile_account account generation reset now s)
unfolding reconcile_account reset_tables
reconcile_account-HasRows account generation reset now s =
    Holds-any (HasRows s.resources) (reconcile_generation generation reset now (s.accounts account))
      _
      λ state. elim (Bool-cases (ltb (current_reset (s.accounts account).breaker) reset)) [
        | inl e ↦ rw e refl
        | inr e ↦ rw e refl
      ]

account_effects-HasRows :
    (change : Change) (uuid generation now : ℕ) (s : ControlStore)
    → Holds (HasRows s.resources) (account_effects change uuid generation now s)
unfolding account_effects account_upserted
account_effects-HasRows change uuid generation now s =
    Holds-if (HasRows s.resources) (is_upsert change) _ (ok (drop_cursors uuid s))
      (upserted (upserted_body change.resource)) refl
  where
    upserted :
        (o : Option Body)
        → Holds (HasRows s.resources) (account_upserted uuid generation o now (drop_cursors uuid s))
    upserted none = tt
    upserted (some body) =
        reconcile_account-HasRows uuid generation body.projection_reset_generation now
          (drop_cursors uuid s)

install_assignment-HasRows :
    (body : Body) (now : ℕ) (s : ControlStore)
    → Holds (HasRows s.resources) (install_assignment body now s)
unfolding install_assignment
install_assignment-HasRows body now s =
    Holds-any (HasRows s.resources)
      (materialize_workspace_projection s.catalogs body (s.mappings, s.aliases)) _ λ mappings. refl

tombstone_before-HasRows :
    (previous : Option Body) (s : ControlStore) → HasRows s.resources (tombstone_before previous s)
unfolding tombstone_before
tombstone_before-HasRows none s = refl
tombstone_before-HasRows (some body) s = refl

assignment_effects-HasRows :
    (change : Change) (previous : Option Body) (now : ℕ) (s : ControlStore)
    → Holds (HasRows s.resources) (assignment_effects change previous now s)
unfolding assignment_effects assignment_upserted
assignment_effects-HasRows change previous now s =
    Holds-if (HasRows s.resources) (is_upsert change) _ (ok (tombstone_before previous s))
      (upserted (upserted_body change.resource)) (tombstone_before-HasRows previous s)
  where
    chosen : (b : Bool) → HasRows s.resources (if b then tombstone_before previous s else s)
    chosen true = tombstone_before-HasRows previous s
    chosen false = refl

    upserted :
        (o : Option Body) → Holds (HasRows s.resources) (assignment_upserted previous o now s)
    upserted none = tt
    upserted (some body) =
        subst
          (λ rows. Holds (HasRows rows) (
            install_assignment body now
              (if is_replaced previous body then tombstone_before previous s else s)))
          (chosen (is_replaced previous body)) (install_assignment-HasRows body now _)

change_effects-HasRows :
    (change : Change) (uuid generation : ℕ) (previous : Option Body) (now : ℕ) (s : ControlStore)
    → Holds (HasRows s.resources) (change_effects change uuid generation previous now s)
unfolding change_effects
change_effects-HasRows change uuid generation previous now s =
    Holds-if (HasRows s.resources) (str_eq change.resource_type "external_account") _ _
      (account_effects-HasRows change uuid generation now s)
      (Holds-if (HasRows s.resources) (str_eq change.resource_type "external_chat_assignment") _
        (ok s) (assignment_effects-HasRows change previous now s) refl)

-- The newer of the stored row and of another version of it; of two of one generation, the stored.
abbrev pub newer : Option DesiredRow → DesiredRow → Option DesiredRow
newer none new = some new
newer (some row) new = if ltb row.generation new.generation then some new else some row

abbrev pub names : String → ℕ → Change → Bool
names kind uuid change =
    str_eq change.resource_type kind
    && (elim change.resource_uuid [ none ↦ false | some held ↦ held == uuid ])

same_key :
    (kind : String) (uuid : ℕ) (new row : DesiredRow)
    → at_resource new.resource_type new.resource_uuid row ≡ true
    → at_resource kind uuid row ≡ at_resource kind uuid new
same_key kind uuid new row h = ground (arith, eq_iff row.resource_type new.resource_type)

other_key :
    (kind : String) (uuid : ℕ) (new row : DesiredRow)
    → at_resource new.resource_type new.resource_uuid row ≡ false
    → at_resource kind uuid row ≡ true
    → at_resource kind uuid new ≡ false
other_key kind uuid new row h k = ground (
  arith,
  eq_iff row.resource_type new.resource_type,
  eq_iff new.resource_type kind,
  eq_iff row.resource_type kind,
)

pub find-put_resource :
    (kind : String) (uuid : ℕ) (new : DesiredRow) (rows : List DesiredRow)
    → find_resource kind uuid (put_resource new rows).1 ≡ (
        if at_resource kind uuid new
        then newer (find_resource kind uuid rows) new
        else find_resource kind uuid rows)
unfolding find_resource put_resource
find-put_resource kind uuid new [] = refl
find-put_resource kind uuid new (row ∷ rows) =
    elim (Bool-cases (at_resource new.resource_type new.resource_uuid row)) [
      | inl e ↦ elim (Bool-cases (ltb row.generation new.generation)) [
        | inl f ↦
            rw (e, f, same_key kind uuid new row e)
              (elim (Bool-cases (at_resource kind uuid new)) [
                | inl g ↦ rw (g, f) refl
                | inr g ↦ rw g refl
              ])
        | inr f ↦
            rw (e, f, same_key kind uuid new row e)
              (elim (Bool-cases (at_resource kind uuid new)) [
                | inl g ↦ rw (g, f) refl
                | inr g ↦ rw g refl
              ])
      ]
      | inr e ↦ elim (Bool-cases (at_resource kind uuid row)) [
        | inl f ↦ rw (e, f, other_key kind uuid new row e f) refl
        | inr f ↦ rw (e, f) (find-put_resource kind uuid new rows)
      ]
    ]

put_resource_old :
    (new : DesiredRow) (rows : List DesiredRow)
    → (put_resource new rows).0 ≡ false
    → (put_resource new rows).1 ≡ rows
unfolding put_resource
put_resource_old new [] h = absurd (cc h)
put_resource_old new (row ∷ rows) h =
    elim (Bool-cases (at_resource new.resource_type new.resource_uuid row)) [
      | inl e ↦ elim (Bool-cases (ltb row.generation new.generation)) [
        | inl f ↦ absurd (cc (rw (e, f, put_resource) at h))
        | inr f ↦ rw (e, f) refl
      ]
      | inr e ↦
          rw e (ap (λ rest. row ∷ rest) (put_resource_old new rows (rw (e, put_resource) at h)))
    ]

-- A round that returns had a well-formed change, and offers its row to the table.
abbrev pub IsOffered : Change → ControlStore → ControlStore → Type 0
IsOffered change s t =
    (uuid : ℕ) × (generation : ℕ) × (change.resource_uuid ≡ some uuid)
    × (change.generation ≡ some generation)
    × (is_resource_type change.resource_type ≡ true)
    × ((is_upsert change || str_eq change.operation "delete") ≡ true)
    × (t.resources ≡ (put_resource (changed_row change uuid generation) s.resources).1)

apply_row-HasRows :
    (change : Change) (uuid generation now : ℕ) (s t : ControlStore) (put : Bool × List DesiredRow)
    → (put.0 ≡ false → put.1 ≡ s.resources)
    → apply_row change uuid generation now s put ≡ ok t
    → t.resources ≡ put.1
unfolding apply_row
apply_row-HasRows change uuid generation now s t (false, rows) old h =
    let kept : s ≡ t = cc h in rw⁻¹ kept (sym (old refl))
apply_row-HasRows change uuid generation now s t (true, rows) old h =
    Holds-ok (HasRows rows) _ t (change_effects-HasRows change uuid generation _ now _) h

pub apply_change-IsOffered :
    (change : Change) (now : ℕ) (s t : ControlStore)
    → apply_change change now s ≡ ok t
    → IsOffered change s t
unfolding apply_change
apply_change-IsOffered change now s t h = named change.resource_uuid change.generation refl refl h
  where
    named :
        (u g : Option ℕ)
        → change.resource_uuid ≡ u
        → change.generation ≡ g
        → (uuid_column u >>= λ uuid. int_of g >>= λ generation.
            require
              (is_resource_type change.resource_type)
              "Unsupported desired-state resource type"
            >> (require
                  (is_upsert change || str_eq change.operation "delete")
                  "Unsupported desired-state operation"
                >> apply_row change uuid generation now s
                    (put_resource (changed_row change uuid generation) s.resources)))
          ≡ ok t
        → IsOffered change s t
    named none g e f k = absurd (cc k)
    named (some uuid) none e f k = absurd (cc k)
    named (some uuid) (some generation) e f k =
        let (a, known, rest) =
          bind_ok
            (require (is_resource_type change.resource_type)
              "Unsupported desired-state resource type")
            _ t k in
        let (b, valid, last) =
          bind_ok
            (require (is_upsert change || str_eq change.operation "delete")
              "Unsupported desired-state operation")
            _ t rest in
        (
          uuid,
          generation,
          e,
          f,
          require_ok _ _ a known,
          require_ok _ _ b valid,
          apply_row-HasRows change uuid generation now s t _
              (put_resource_old (changed_row change uuid generation) s.resources) last,
        )

-- The version that a change offers of a resource, if it names it.
abbrev pub offer : String → ℕ → Change → Option ℕ → Option ℕ → Option DesiredRow → Option DesiredRow
offer kind uuid change (some held) (some generation) stored =
    if at_resource kind uuid (changed_row change held generation)
    then newer stored (changed_row change held generation)
    else stored
offer kind uuid change _ _ stored = stored

-- The newest version of a resource that was stored or arrived.
abbrev pub newest : String → ℕ → List Change → Option DesiredRow → Option DesiredRow
newest kind uuid [] stored = stored
newest kind uuid (change ∷ changes) stored =
    newest kind uuid changes (offer kind uuid change change.resource_uuid change.generation stored)

apply_all-newest :
    (kind : String) (uuid : ℕ) (changes : List Change) (now : ℕ) (s t : ControlStore)
    → apply_all changes now s ≡ ok t
    → find_resource kind uuid t.resources
      ≡ newest kind uuid changes (find_resource kind uuid s.resources)
unfolding apply_all
apply_all-newest kind uuid [] now s t h = let kept : s ≡ t = cc h in rw⁻¹ kept refl
apply_all-newest kind uuid (change ∷ changes) now s t h =
    let (u, first, rest) = bind_ok (apply_change change now s) _ t h in
    let (held, generation, e, f, _, _, rows) = apply_change-IsOffered change now s u first in
    let stored =
      ap (find_resource kind uuid) rows
      ∙ find-put_resource kind uuid (changed_row change held generation) s.resources in
    rw (apply_all-newest kind uuid changes now u t rest, stored, e, f) refl

-- After a batch that is applied, each resource has the newest of the version that was stored and
-- the versions that the batch brought for it, by generation; of one generation the first stays.
pub apply_desired_changes-newest :
    (kind : String) (uuid : ℕ) (changes : List Change) (cursor : String) (now : ℕ)
    (s t : ControlStore)
    → apply_desired_changes changes cursor now s ≡ ok t
    → find_resource kind uuid t.resources
      ≡ newest kind uuid changes (find_resource kind uuid s.resources)
unfolding apply_desired_changes
apply_desired_changes-newest kind uuid changes cursor now s t h =
    let (_, _, applied) = bind_ok (validate_changes changes) _ t h in
    let (u, all, done) = bind_ok (apply_all changes now s) _ t applied in
    let moved : record u { control_cursor = cursor } ≡ t = cc done in
    rw⁻¹ moved (apply_all-newest kind uuid changes now s u all)
