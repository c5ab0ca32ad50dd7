-- ===== src/Sockets/Examples.antt =====
-- A user with two sockets, one of which fails.
use euphoria_api.Base.{
  ◌≡◌, refl, Bool, false, [], ◌∷◌, none, some, Text, text, text_eqb, length, if◌then◌else◌,
}
use euphoria_api.Sql.{select}
use euphoria_api.Maps.{get}
use euphoria_api.Sockets.Notification.{Sockets, Hub, or_new, add, send_to_user}
use euphoria_api.Sockets.Delivery.{send_to_user_lem}
use euphoria_api.Sockets.Lifecycle.{Connected, no_hub, after, adds, sends, HubReach-Connected}

abbrev accepts : Text → Bool
accepts id = text_eqb id (text "s1")

abbrev sockets : Sockets
sockets = (text "s1", record { id = text "s1" }) ∷ (text "s2", record { id = text "s2" }) ∷ []

abbrev hub : Hub
hub = (text "u", sockets) ∷ []

two_added :
    add (text "u") (record { id = text "s2" }) (add (text "u") (record { id = text "s1" }) []) ≡ hub
unfolding add text_eqb
two_added = refl

found : get (text "u") hub ≡ some sockets
unfolding get text_eqb
found = refl

apart : text_eqb (text "u") (text "v") ≡ false
unfolding text_eqb
apart = refl

send_to_user_lem_example :
    let out = send_to_user accepts (text "u") hub in
    (out.0 ≡ length (select (λ e. accepts e.0) sockets))
    × (get (text "s2") (or_new (get (text "u") out.1))
        ≡ (if accepts (text "s2") then get (text "s2") sockets else none))
    × (get (text "v") out.1 ≡ get (text "v") hub)
send_to_user_lem_example =
    send_to_user_lem accepts (text "u") (text "v") (text "s2") hub sockets found apart

abbrev one_added : Hub
one_added = add (text "u") (record { id = text "s1" }) []

no_empty_user : Connected (send_to_user accepts (text "u") one_added).1
no_empty_user =
    HubReach-Connected (send_to_user accepts (text "u") one_added).1 (
      after (after no_hub (adds (text "u") (record { id = text "s1" }))) (sends accepts (text "u")))
