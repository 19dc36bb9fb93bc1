-- ===== src/Tests/Requests.antt =====
-- The theorem on requests at a node that projects column 1 and a parent without a limit.
use pg_batch.Prelude.{◌≡◌, refl, ◌∷◌, []}
use pg_batch.Prelude.Int.{pos}
use pg_batch.Prelude.Result.{ok}
use pg_batch.Bridge.{State, output_rows, seal_request}
use pg_batch.Runtime.Request.{UnaryRequest, Forwards, forward_request, forward_request-Forwards}
use pg_batch.Tests.Bindings.{start}

abbrev unary : UnaryRequest
unary = record { filter_columns = []; project_columns = 1 ∷ []; max_rows = pos 16 }

abbrev own : State
own = record start {
  binding = record start.binding {
    request = record {
      filter_columns = 1 ∷ [];
      project_columns = 0 ∷ [];
      output_mode = output_rows;
      max_rows = pos 0;
    };
  };
}

forward_request-Forwards_example :
    (after : State) × (forward_request unary start own ≡ ok (after, seal_request own))
    × Forwards start.binding.request own.binding.request unary after.binding
forward_request-Forwards_example =
    forward_request-Forwards start own unary refl refl
      (record { filters = refl; projects = refl; limit = refl })
      (record { filters = refl; projects = refl; limit = refl })
      (record { filters = refl; projects = refl; limit = refl })
