-- ===== src/Membership/Examples.antt =====
-- Two users and a group profile, from empty tables.
use euphoria_api.Base.{
  ◌≡◌, refl, true, false, ◌&&◌, [], ◌∷◌, none, some, Text, text, text_eq, text_eqb, ◌==◌, any, ok,
  err, ltb,
}
use mathlib.Core.List.Memᴰ.{head, tail}
use euphoria_api.Membership.Schema.{
  owner, member, group, is_owner, is_solo, ProfileRow, Membership, Tables, is_active,
}
use euphoria_api.Membership.Failures.{
  Thrown, primitive, object, final_owner_required, active_profile_conflict,
}
use euphoria_api.Membership.Triggers.{member_count}
use euphoria_api.Membership.Service.{create_profile, add_member, remove_member, set_member_role}
use euphoria_api.Membership.Guarded.{row_of}
use euphoria_api.Membership.Changes.{ByOwner, remove_member-ByOwner}
use euphoria_api.Membership.Lifecycle.{
  MemberReach, no_rows, after, creates, adds, signs_up, single_profile, has_owner,
}

-- The error of the query, which has the error of the database as its cause.
abbrev raise : Text → Thrown
raise constraint = object none none (object none (some constraint) primitive)

abbrev ann : Text
ann = text "ann"

abbrev bob : Text
bob = text "bob"

abbrev p1 : Text
p1 = text "p1"

abbrev shared : ProfileRow
shared = record { id = p1; profile_type = group; deleted_at = none }

abbrev ann_owns : Membership
ann_owns = record { profile_id = p1; user_id = ann; role = owner }

abbrev bob_joins : Membership
bob_joins = record { profile_id = p1; user_id = bob; role = member }

abbrev alone : Tables
alone = record { profiles = shared ∷ []; members = ann_owns ∷ []; users = ann ∷ bob ∷ [] }

abbrev both : Tables
both = record {
  profiles = shared ∷ [];
  members = ann_owns ∷ bob_joins ∷ [];
  users = ann ∷ bob ∷ [];
}

alone_created :
    create_profile raise shared ann (record { profiles = []; members = []; users = ann ∷ bob ∷ [] })
    ≡ ok (ok shared, alone)
unfolding create_profile text_eqb
alone_created = refl

bob_added : add_member raise ann p1 member bob alone ≡ ok (ok bob_joins, both)
unfolding add_member text_eqb
bob_added = refl

reach : MemberReach raise both
reach =
    after
      (after (after (after no_rows (signs_up ann)) (signs_up bob))
        (creates shared ann (ok shared) alone_created))
      (adds ann p1 member bob (ok bob_joins) bob_added)

live : is_active p1 both.profiles ≡ true
unfolding is_active text_eqb
live = refl

there : row_of p1 both ≡ some shared
unfolding row_of text_eqb
there = refl

single_profile_example : p1 ≡ p1
single_profile_example =
    single_profile raise both ann_owns ann_owns reach (head refl) (head refl) refl live live

has_owner_example :
    (any (λ x. x.profile_id == p1 && is_owner x.role) both.members ≡ true)
    × ((is_solo group && ltb 1 (member_count p1 both)) ≡ false)
has_owner_example = has_owner raise both bob_joins shared reach (tail (head refl)) there refl

bob_removed : remove_member raise ann p1 bob both ≡ ok (ok bob_joins, alone)
unfolding remove_member text_eqb
bob_removed = refl

remove_member-ByOwner_example : ByOwner ann p1 bob both alone
remove_member-ByOwner_example =
    remove_member-ByOwner raise ann p1 bob both (ok bob_joins, alone) bob_removed

-- The owner of a profile with another member is neither removed nor demoted.
last_owner_stays :
    (remove_member raise ann p1 ann both ≡ ok (err final_owner_required, both))
    × (set_member_role raise ann p1 member ann both ≡ ok (err final_owner_required, both))
unfolding remove_member set_member_role text_eqb
last_owner_stays = (refl, refl)

-- An owner who is the only member is removed, and the profile has no owner afterwards.
sole_owner_leaves :
    remove_member raise ann p1 ann alone ≡ ok (ok ann_owns, record alone { members = [] })
unfolding remove_member text_eqb
sole_owner_leaves = refl

-- A user with a profile is not given another.
second_profile_refused :
    create_profile raise (record shared { id = text "p2" }) bob both
    ≡ ok (err active_profile_conflict, both)
unfolding create_profile text_eqb
second_profile_refused = refl
