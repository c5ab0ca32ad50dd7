-- ===== src/Membership/Lifecycle.antt =====
-- Every sequence of the four operations.
use euphoria_api.Base.{
  ℕ, ◌≡◌, refl, sym, subst, inl, inr, true, false, ◌&&◌, [], none, some, Text, text_eq,
  text_eqb_iff, ◌==◌, any, map, length, ok, arith, ltb, nat_eqb, nat_eq,
}
use mathlib.Core.List.{Memᴰ}
use euphoria_api.Sql.{select, insert}
use euphoria_api.Membership.Schema.{
  Role, is_owner, is_solo, ProfileRow, Membership, Tables, is_active, distinct_ids,
}
use euphoria_api.Membership.Failures.{Thrown}
use euphoria_api.Membership.Triggers.{cardinality, member_count, owner_count}
use euphoria_api.Membership.Service.{
  Mutation, create_profile, add_member, remove_member, set_member_role,
}
use euphoria_api.Membership.Guarded.{Guarded, row_of, is_sound}
use euphoria_api.Membership.Kept.{nothing, row}
use euphoria_api.Membership.Changes.{
  ByOwner, add_member-ByOwner, remove_member-ByOwner, set_member_role-ByOwner,
}
use euphoria_api.Membership.Rows.{Mem-select, Mem-map, Mem-distinct_ids, only_one, filled, counted}
use euphoria_api.Membership.Creating.{create_profile-Guarded}

module _ (raise : Text → Thrown) where
  -- A transaction of the service that comes through, or a new user.
  pub data MemberStep (t : Tables) : Tables → Type 0 where
    creates :
        {next : Tables} (input : ProfileRow) (u : Text) (answer : Mutation ProfileRow)
        → create_profile raise input u t ≡ ok (answer, next)
        → MemberStep t next
    adds :
        {next : Tables} (actor p : Text) (role : Role) (u : Text) (answer : Mutation Membership)
        → add_member raise actor p role u t ≡ ok (answer, next)
        → MemberStep t next
    removes :
        {next : Tables} (actor p u : Text) (answer : Mutation Membership)
        → remove_member raise actor p u t ≡ ok (answer, next)
        → MemberStep t next
    sets_role :
        {next : Tables} (actor p : Text) (role : Role) (u : Text) (answer : Mutation Membership)
        → set_member_role raise actor p role u t ≡ ok (answer, next)
        → MemberStep t next
    signs_up : (u : Text) → MemberStep t (record t { users = insert u t.users })

  pub data MemberReach : Tables → Type 0 where
    no_rows : MemberReach (record { profiles = []; members = []; users = [] })
    after : {t next : Tables} → MemberReach t → MemberStep t next → MemberReach next

  ByOwner-Guarded :
      (actor p u : Text) (t next : Tables) → ByOwner actor p u t next → Guarded t → Guarded next
  ByOwner-Guarded actor p u t next (inl same) g = subst Guarded (sym same) g
  ByOwner-Guarded actor p u t next (inr (own, nothing same)) g = subst Guarded (sym same) g
  ByOwner-Guarded actor p u t next (inr (own, row e a keeps)) g = keeps g

  MemberStep-Guarded : (t next : Tables) → Guarded t → MemberStep t next → Guarded next
  unfolding cardinality member_count owner_count row_of
  MemberStep-Guarded t next g (creates input u answer ran) =
      create_profile-Guarded raise input u t _ ran g
  MemberStep-Guarded t next g (adds actor p role u answer ran) =
      ByOwner-Guarded actor p u t next (add_member-ByOwner raise actor p role u t _ ran) g
  MemberStep-Guarded t next g (removes actor p u answer ran) =
      ByOwner-Guarded actor p u t next (remove_member-ByOwner raise actor p u t _ ran) g
  MemberStep-Guarded t next g (sets_role actor p role u answer ran) =
      ByOwner-Guarded actor p u t next (set_member_role-ByOwner raise actor p role u t _ ran) g
  MemberStep-Guarded t _ g (signs_up u) = record {
    single = g.single;
    sound = g.sound;
    known = g.known;
  }

  pub MemberReach-Guarded : (t : Tables) → MemberReach t → Guarded t
  unfolding cardinality member_count owner_count row_of select distinct_ids
  MemberReach-Guarded _ no_rows = record {
    single = λ u. omega arith;
    sound = λ p. refl;
    known = tt;
  }
  MemberReach-Guarded t (after {t = d} reach step) =
      MemberStep-Guarded d t (MemberReach-Guarded d reach) step

-- Whatever the service has done, two memberships of one user in profiles that are not deleted are
-- memberships in the same profile.
pub single_profile :
    (raise : Text → Thrown) (t : Tables) (m n : Membership)
    → MemberReach raise t
    → Memᴰ m t.members
    → Memᴰ n t.members
    → m.user_id ≡ n.user_id
    → is_active m.profile_id t.profiles ≡ true
    → is_active n.profile_id t.profiles ≡ true
    → m.profile_id ≡ n.profile_id
unfolding cardinality
single_profile raise t m n reach in_m in_n same live_m live_n =
    let g = MemberReach-Guarded raise t reach in
    let q = λ (x : Membership). x.user_id == n.user_id && is_active x.profile_id t.profiles in
    let at_m : q m ≡ true = rw (live_m, (text_eqb_iff m.user_id n.user_id).1 same) refl in
    let at_n : q n ≡ true = rw (live_n, (text_eqb_iff n.user_id n.user_id).1 refl) refl in
    let ids = map (λ (x : Membership). x.profile_id) (select q t.members) in
    only_one (distinct_ids ids) (g.single n.user_id)
      (Mem-distinct_ids ids (Mem-map _ (select q t.members) (Mem-select q t.members in_m at_m)))
      (Mem-distinct_ids ids (Mem-map _ (select q t.members) (Mem-select q t.members in_n at_n)))

sound_parts :
    (members owners : ℕ) (r : ProfileRow)
    → is_sound members owners (some r) ≡ true
    → r.deleted_at ≡ none
    → ltb 0 members ≡ true
    → (nat_eqb owners 0 ≡ false) × ((is_solo r.profile_type && ltb 1 members) ≡ false)
sound_parts members owners r h live some_one = let s = rw live at h in ground arith

-- Whatever the service has done, a profile that is not deleted and has a member has an owner, and it
-- has only one member if it is a solo profile.
pub has_owner :
    (raise : Text → Thrown) (t : Tables) (m : Membership) (r : ProfileRow)
    → MemberReach raise t
    → Memᴰ m t.members
    → row_of m.profile_id t ≡ some r
    → r.deleted_at ≡ none
    → (any (λ x. x.profile_id == m.profile_id && is_owner x.role) t.members ≡ true)
      × ((is_solo r.profile_type && ltb 1 (member_count m.profile_id t)) ≡ false)
unfolding member_count owner_count
has_owner raise t m r reach in_m there live =
    let g = MemberReach-Guarded raise t reach in
    let mine = select (λ (x : Membership). x.profile_id == m.profile_id) t.members in
    let in_mine =
      Mem-select (λ (x : Membership). x.profile_id == m.profile_id) t.members in_m
        ((text_eqb_iff m.profile_id m.profile_id).1 refl) in
    let (owned, alone) =
      sound_parts (length mine) (owner_count m.profile_id t) r (rw there at (g.sound m.profile_id))
        live (filled mine in_mine) in
    (
      counted (λ (x : Membership). x.profile_id == m.profile_id && is_owner x.role) t.members owned,
      alone,
    )
