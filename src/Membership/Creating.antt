-- ===== src/Membership/Creating.antt =====
-- The creation of a profile by createProfileForUser.
use euphoria_api.Base.{
  ◌≡◌, sym, ◌∙◌, ap, subst, inl, inr, true, false, ◌&&◌, [], ◌∷◌, ◌++◌, Text, text_eq, text_eqb,
  text_eqb_iff, ◌==◌, is_null, any, map, length, first, All-map, any-insert, ok, err, ◌>>=◌,
  if◌then◌else◌, Bool-cases, arith, nat_eq,
}
use euphoria_api.Sql.{select, insert}
use euphoria_api.Membership.Schema.{
  owner, ProfileRow, Membership, Tables, is_active, is_known, distinct_ids,
}
use euphoria_api.Membership.Failures.{Thrown, active_profile_conflict}
use euphoria_api.Membership.Triggers.{cardinality, member_count, owner_count}
use euphoria_api.Membership.Service.{
  Mutation, Answer, fail, insert_profile, commit_member, create_profile,
}
use euphoria_api.Membership.Guarded.{Guarded, row_of, is_sound}
use euphoria_api.Membership.Kept.{Write, nothing, row, caught-cases, commit_member-Write}
use euphoria_api.Membership.Rows.{select-same_on, select_none, select-append, append_nil}

module _ (t : Tables) (r : ProfileRow) (g : Guarded t)
    (fresh : is_known r.id t.profiles ≡ false) where
  apart : (p : Text) → is_known p t.profiles ≡ true → text_eqb r.id p ≡ false
  apart p k = elim (Bool-cases (text_eqb r.id p)) [
    | inl q ↦ absurd (cc (ap (λ w. is_known w t.profiles) ((text_eqb_iff r.id p).0 q), fresh, k))
    | inr q ↦ q
  ]

  active_insert :
      (p : Text)
      → is_known p t.profiles ≡ true
      → is_active p (insert r t.profiles) ≡ is_active p t.profiles
  unfolding is_active
  active_insert p k =
      any-insert (λ (x : ProfileRow). x.id == p && is_null x.deleted_at) t.profiles r
      ∙ rw (apart p k) (ground arith)

  single_insert :
      (u : Text) → cardinality u (record t { profiles = insert r t.profiles }) ≡ cardinality u t
  unfolding cardinality
  single_insert u =
      ap (λ ms. length (distinct_ids (map (λ (m : Membership). m.profile_id) ms)))
        (select-same_on _ _ t.members (
          All-map (λ m k. ap (λ b. m.user_id == u && b) (active_insert m.profile_id k)) t.members
            g.known))

  sound_insert :
      (p : Text)
      → is_sound
          (member_count p t)
          (owner_count p t)
          (row_of p (record t { profiles = insert r t.profiles }))
        ≡ true
  unfolding row_of member_count
  sound_insert p =
      rw (select-append (λ (x : ProfileRow). x.id == p) t.profiles (r ∷ []))
        (elim (Bool-cases (text_eqb r.id p)) [
          | inr q ↦
              subst (λ l. is_sound (member_count p t) (owner_count p t) (first l) ≡ true)
                (sym (append_nil _)
                  ∙ ap (λ l. select (λ (x : ProfileRow). x.id == p) t.profiles ++ l)
                      (sym (select_none (λ (x : ProfileRow). x.id == p) (r ∷ []) (q, tt))))
                (g.sound p)
          | inl q ↦
              let empty : member_count p t ≡ 0 = ap length (
                select_none (λ (m : Membership). m.profile_id == p) t.members
                  (All-map (λ m k. other p q m.profile_id k) t.members g.known)) in
              rw empty (ground arith)
        ])
    where
      other :
          (p : Text)
          → text_eqb r.id p ≡ true
          → (w : Text) → is_known w t.profiles ≡ true
          → text_eqb w p ≡ false
      other p q w k = elim (Bool-cases (text_eqb w p)) [
        | inl e ↦ absurd (
            cc (
              apart w k,
              (text_eqb_iff r.id w).1 ((text_eqb_iff r.id p).0 q ∙ sym ((text_eqb_iff w p).0 e)),
            ))
        | inr e ↦ e
      ]

  known_insert : (p : Text) → is_known p t.profiles ≡ true → is_known p (insert r t.profiles) ≡ true
  unfolding is_known
  known_insert p k = any-insert (λ (x : ProfileRow). x.id == p) t.profiles r ∙ ground arith

  Guarded-profile : Guarded (record t { profiles = insert r t.profiles })
  unfolding member_count owner_count
  Guarded-profile = record {
    single = λ u. rw (single_insert u) (g.single u);
    sound = sound_insert;
    known = All-map (λ m k. known_insert m.profile_id k) t.members g.known;
  }

pub create_profile-Guarded :
    (raise : Text → Thrown) (input : ProfileRow) (u : Text) (t : Tables)
    (out : Mutation ProfileRow × Tables)
    → create_profile raise input u t ≡ ok out
    → Guarded t
    → Guarded out.1
unfolding create_profile insert_profile
create_profile-Guarded raise input u t out h g = elim (caught-cases t body out h) [
  | inr same ↦ subst Guarded (sym same) g
  | inl ran ↦
      elim (Bool-cases (any (λ m. m.user_id == u && is_active m.profile_id t.profiles) t.members)) [
        | inl q ↦ subst Guarded (stays (rw q at ran)) g
        | inr q ↦ elim (Bool-cases (is_known input.id t.profiles)) [
          | inl k ↦ absurd (cc (rw (q, k) at ran))
          | inr k ↦
              written (Guarded-profile t input g k)
                (commit_member-Write raise input _ _ out (rw (q, k) at ran))
        ]
      ]
]
  where
    body : Answer ProfileRow
    body =
        if any (λ m. m.user_id == u && is_active m.profile_id t.profiles) t.members
        then fail active_profile_conflict t
        else insert_profile raise input t
          >>= commit_member raise input
              (record { profile_id = input.id; user_id = u; role = owner })

    tables_of : Answer ProfileRow → Tables
    tables_of (ok answer) = answer.1
    tables_of (err e) = t

    stays : fail active_profile_conflict t ≡ ok out → t ≡ out.1
    stays e = ap tables_of e

    written : {d : Tables} → Guarded d → Write input.id u d out.1 → Guarded out.1
    written k (nothing same) = subst Guarded (sym same) k
    written k (row e a keeps) = keeps k
