-- ===== src/Service/Authorization/Laws.antt =====
-- The decisions for a token against its policies.
use bindizr.Base.{
  true, List, [], ◌∷◌, All, any, ok, ◌≡◌, ◌≢◌, refl, ℤ, Bool-cases, inl, inr, List-cases,
  ne-is_empty,
}
use bindizr.Record.Model.{Zone}
use bindizr.Service.Store.{ZonePolicy, Db, policies_of}
use bindizr.Service.Authorization.{
  token, RecordWrite, grants_write, authorize_with_policies, authorize_record_writes,
}

-- Some policy covers the write.
abbrev pub IsGranted : List ZonePolicy → RecordWrite → Type 0
IsGranted policies w = any (grants_write w.relative_name w.record_type) policies ≡ true

authorize_with_policies_iff :
    (policies : List ZonePolicy) (ws : List RecordWrite)
    → (authorize_with_policies policies ws ≡ ok tt → All (IsGranted policies) ws)
      × (All (IsGranted policies) ws → authorize_with_policies policies ws ≡ ok tt)
unfolding authorize_with_policies
authorize_with_policies_iff policies [] = (λ _. tt, λ _. refl)
authorize_with_policies_iff policies (w ∷ ws) =
    let (sound, complete) = authorize_with_policies_iff policies ws in
    elim (Bool-cases (any (grants_write w.relative_name w.record_type) policies)) [
      | inl t ↦ (λ e. (t, sound (rw t at e)), λ h. rw t (complete h.1))
      | inr f ↦ (λ e. cc (rw f at e), λ h. cc (rw f at h.0))
    ]

-- A token's writes pass exactly when the token holds a policy for the zone, and each write is
-- covered by such a policy; an empty batch does not pass without one.
pub authorize_record_writes_iff :
    (db : Db) (id : ℤ) (grants : List ZonePolicy) (zone : Zone) (ws : List RecordWrite)
    → (authorize_record_writes db (token id grants) zone ws ≡ ok tt
        → (policies_of zone.id id db.token_policies ≢ [])
          × All (IsGranted (policies_of zone.id id db.token_policies)) ws)
      × ((policies_of zone.id id db.token_policies ≢ [])
            × All (IsGranted (policies_of zone.id id db.token_policies)) ws
          → authorize_record_writes db (token id grants) zone ws ≡ ok tt)
unfolding authorize_record_writes
authorize_record_writes_iff db id grants zone ws =
    let policies = policies_of zone.id id db.token_policies in
    let (sound, complete) = authorize_with_policies_iff policies ws in
    elim (List-cases policies) [
      | inl e ↦ (λ h. cc (rw e at h), λ k. absurd (k.0 e))
      | inr ne ↦ (
        λ h. (ne, sound (rw (ne-is_empty policies ne) at h)),
        λ k. rw (ne-is_empty policies ne) (complete k.1),
      )
    ]
