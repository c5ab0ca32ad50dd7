-- ===== src/Sockets/Delivery.antt =====
-- What sending to a user does: each socket that accepts is counted and kept, the others go.
use euphoria_api.Base.{
  ℕ, ◌+◌, ◌≡◌, refl, sym, ◌∙◌, ap, Bool, true, false, not, ◌&&◌, inl, inr, [], ◌∷◌, none, some,
  Text, text_eqb, text_eqb_iff, arith, Bool-cases, if◌then◌else◌, length, any,
}
use euphoria_api.Sql.{select}
use euphoria_api.Maps.{get, drop, get-put, get-drop}
use euphoria_api.Sockets.Notification.{Sockets, Hub, or_new, kept_or_dropped, deliver, send_to_user}

deliver-count :
    (accepts : Text → Bool) (entries : Sockets) (sent : ℕ) (sockets : Sockets)
    → (deliver accepts entries sent sockets).0 ≡ sent + length (select (λ e. accepts e.0) entries)
unfolding deliver select
deliver-count accepts [] sent sockets = omega arith
deliver-count accepts (e ∷ entries) sent sockets = elim (Bool-cases (accepts e.0)) [
  | inl q ↦ rw q (deliver-count accepts entries (sent + 1) sockets ∙ omega arith)
  | inr q ↦ rw q (deliver-count accepts entries sent (drop e.0 sockets))
]

abbrev is_listed : Text → Sockets → Bool
is_listed j entries = any (λ e. text_eqb e.0 j) entries

unlisted : (j : Text) (entries : Sockets) → is_listed j entries ≡ false → get j entries ≡ none
unfolding get
unlisted j [] h = refl
unlisted j (e ∷ entries) h = ground (arith, unlisted j entries)

deliver-get :
    (accepts : Text → Bool) (j : Text) (entries : Sockets) (sent : ℕ) (sockets : Sockets)
    → get j (deliver accepts entries sent sockets).1
      ≡ (if is_listed j entries && not (accepts j) then none else get j sockets)
unfolding deliver
deliver-get accepts j [] sent sockets = refl
deliver-get accepts j (e ∷ entries) sent sockets = elim (Bool-cases (accepts e.0)) [
  | inl q ↦ rw q (
      deliver-get accepts j entries (sent + 1) sockets ∙ elim (Bool-cases (text_eqb e.0 j)) [
        | inl p ↦
            let yes : accepts j ≡ true = ap accepts (sym ((text_eqb_iff e.0 j).0 p)) ∙ q in
            rw (yes, p) (ground arith)
        | inr p ↦ rw p refl
      ])
  | inr q ↦ rw q (
      deliver-get accepts j entries sent (drop e.0 sockets)
      ∙ rw (get-drop e.0 sockets j) (elim (Bool-cases (text_eqb e.0 j)) [
        | inl p ↦
            let no : accepts j ≡ false = ap accepts (sym ((text_eqb_iff e.0 j).0 p)) ∙ q in
            rw (no, p) (ground arith)
        | inr p ↦ rw p refl
      ]))
]

kept-get :
    (user other : Text) (sockets : Sockets) (hub : Hub)
    → text_eqb user other ≡ false
    → get other (kept_or_dropped user sockets hub) ≡ get other hub
kept-get user other [] hub n = get-drop user hub other ∙ rw n refl
kept-get user other (s ∷ sockets) hub n = get-put user (s ∷ sockets) hub other ∙ rw n refl

kept-here :
    (user : Text) (sockets : Sockets) (hub : Hub)
    → or_new (get user (kept_or_dropped user sockets hub)) ≡ sockets
kept-here user [] hub =
    ap or_new (get-drop user hub user)
    ∙ ap (λ b. or_new (if b then none else get user hub)) ((text_eqb_iff user user).1 refl)
kept-here user (s ∷ sockets) hub =
    ap or_new (get-put user (s ∷ sockets) hub user)
    ∙ ap (λ b. or_new (if b then some (s ∷ sockets) else get user hub))
        ((text_eqb_iff user user).1 refl)

-- Sending to a user who has sockets answers the number of those that accept. Afterwards each of
-- them is still there, each of the others is gone, and another user's sockets are as they were.
pub send_to_user_lem :
    (accepts : Text → Bool) (user other j : Text) (hub : Hub) (sockets : Sockets)
    → get user hub ≡ some sockets
    → text_eqb user other ≡ false
    → let out = send_to_user accepts user hub in
      (out.0 ≡ length (select (λ e. accepts e.0) sockets))
      × (get j (or_new (get user out.1)) ≡ (if accepts j then get j sockets else none))
      × (get other out.1 ≡ get other hub)
unfolding send_to_user
send_to_user_lem accepts user other j hub sockets h n =
    let out = deliver accepts sockets 0 sockets in
    rw h (
      deliver-count accepts sockets 0 sockets ∙ omega arith,
      ap (get j) (kept-here user out.1 hub)
          ∙ deliver-get accepts j sockets 0 sockets
          ∙ elim (Bool-cases (is_listed j sockets)) [
            | inl l ↦ rw l (ground arith)
            | inr l ↦ rw (l, unlisted j sockets l) (ground arith)
          ],
      kept-get user other out.1 hub n,
    )
