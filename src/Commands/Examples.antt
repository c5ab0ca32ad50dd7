-- ===== src/Commands/Examples.antt =====
-- A command that adds one to a counter, run, run again and cleaned up.
use euphoria_api.Base.{
  ℕ, suc, ◌≡◌, refl, ◌≢◌, true, false, [], ◌∷◌, none, some, Text, text, Result, ok, first, ◌++◌,
  text_eqb, text_eqb_iff, text_eq, nat_eq,
}
use euphoria_api.Sql.{select, order_by}
use euphoria_api.Sql.Keys.{find}
use euphoria_api.Validate.{natural, assert_positive_integer}
use euphoria_api.Commands.Json.{
  null, number, array, entry, no_entries, object, field, no_fields, Fields, canonicalize, decimal,
  quote,
}
use euphoria_api.Commands.Schema.{
  Command, CommandOutcome, CommandFault, RawOutcome, succeeded, result, replied, refused,
  idempotency_in_progress, invalid_argument, command_key,
}
use euphoria_api.Commands.Run.{
  CommandInput, fingerprint_domain, check_command, normalize_outcome, run_command,
}
use euphoria_api.Commands.Cleanup.{list_nonterminal}
use euphoria_api.Commands.Settled.{Settled}
use euphoria_api.Commands.Replay.{Accepted, of_key, persisted_row, run_command_new}
use euphoria_api.Commands.Once.{run_command_again, run_command-Settled}
use euphoria_api.Commands.Canonical.{exchanged, canonicalize-Reordered}
use euphoria_api.Commands.Retention.{list_nonterminal-Settled}

abbrev two_fields : Fields
two_fields =
    field (text "b") (array (entry (number (decimal 207)) (entry null no_entries)))
      (field (text "a") null no_fields)

abbrev two_exchanged : Fields
two_exchanged =
    field (text "a") null
      (field (text "b") (array (entry (number (decimal 207)) (entry null no_entries))) no_fields)

two_fields-text : canonicalize (object two_fields) ≡ some (text "{\"a\":null,\"b\":[207,null]}")
unfolding canonicalize quote order_by decimal
two_fields-text = refl

keys_differ : text "b" ≢ text "a"
unfolding text_eqb
keys_differ = λ h. let e : false ≡ true = (text_eqb_iff (text "b") (text "a")).1 h in absurd (cc e)

canonicalize-Reordered_example :
    canonicalize (object two_fields) ≡ canonicalize (object two_exchanged)
canonicalize-Reordered_example =
    canonicalize-Reordered two_fields two_exchanged (exchanged _ _ _ _ no_fields keys_differ)

abbrev digest : Text → Text
digest s = s

abbrev request : CommandInput
request = record {
  actor_user_id = text "user-1";
  command_name = text "chat.send";
  command_version = natural 1;
  idempotency_key = text "k1";
  request = null;
  retention_seconds = natural 60;
}

abbrev print : Text
print = fingerprint_domain ++ text "{\"command\":\"chat.send\",\"request\":null,\"version\":1}"

accepted : Accepted digest request 1 60 print
unfolding check_command decimal canonicalize order_by quote
accepted = record { checked = refl; fits = refl }

abbrev count_up : ℕ → Result CommandFault (RawOutcome × ℕ)
count_up w =
    ok (record { outcome = text "succeeded"; raw_result = some null; raw_reference = none }, suc w)

abbrev settle : ℕ → Result CommandFault ℕ
settle w = ok w

empty : Settled []
empty = record { ids_distinct = tt; keys_distinct = tt; all_completed = tt }

abbrev done : CommandOutcome
done = result succeeded null

normal :
    normalize_outcome
      (record { outcome = text "succeeded"; raw_result = some null; raw_reference = none })
    ≡ ok done
unfolding normalize_outcome canonicalize
normal = refl

new_key : first (select (of_key request) []) ≡ none
unfolding select
new_key = refl

new_id : find command_key 5 [] ≡ none
unfolding find
new_id = refl

abbrev first_row : Command
first_row = persisted_row 5 10 20 1 60 print request done

run_command_again_example :
    (run_command digest 5 10 20 request count_up settle [] 0
      ≡ ok (replied 5 false done, (first_row ∷ [], 1)))
    × (run_command digest 6 30 40 request count_up settle (first_row ∷ []) 9
        ≡ ok (replied 5 true done, (first_row ∷ [], 9)))
run_command_again_example =
    run_command_again digest request 1 60 print accepted count_up settle [] empty 0 5 10 20 new_key
      new_id _ done 1 1 refl normal refl count_up settle 9 6 30 40

ran :
    run_command digest 5 10 20 request count_up settle [] 0
    ≡ ok (replied 5 false done, (first_row ∷ [], 1))
ran =
    run_command_new digest request 1 60 print accepted count_up settle [] empty 0 5 10 20 new_key
      new_id _ done 1 1 refl normal refl

run_command-Settled_example :
    Settled (first_row ∷ []) × (replied 5 false done ≢ refused idempotency_in_progress)
run_command-Settled_example =
    run_command-Settled digest request count_up settle [] empty 0 5 10 20 (replied 5 false done)
      (first_row ∷ [], 1) ran

first_Settled : Settled (first_row ∷ [])
first_Settled =
    let (v, _) =
      run_command-Settled digest request count_up settle [] empty 0 5 10 20 (replied 5 false done)
        (first_row ∷ [], 1) ran in
    v

-- The same key with another request.
abbrev other_request : CommandInput
other_request = record request { command_version = natural 2 }

abbrev other_print : Text
other_print =
    fingerprint_domain ++ text "{\"command\":\"chat.send\",\"request\":null,\"version\":2}"

batch : assert_positive_integer (natural 10) invalid_argument ≡ ok 10
unfolding assert_positive_integer
batch = refl

nothing_overdue : list_nonterminal 90 (natural 10) (natural 10) (first_row ∷ []) ≡ ok []
nothing_overdue =
    list_nonterminal-Settled 90 (natural 10) (natural 10) 10 10 (first_row ∷ []) first_Settled batch
      batch
