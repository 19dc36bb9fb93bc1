-- ===== src/Tests/Bindings.antt =====
-- The theorems on bindings along a run: a request is set, a batch published, finished and cleared.
use pg_batch.Prelude.{ℕ, ◌≡◌, refl, false, true, some, none, [], ◌∷◌}
use pg_batch.Prelude.Int.{pos}
use pg_batch.Prelude.Result.{ok}
use pg_batch.Bits.{is_zero, bit_and, shift_left}
use pg_batch.Bridge.{
  Abi, PgBatch, RequestSpec, State, output_rows, publish_batch, clear_binding, set_generation,
  check_batch, check_ops, accept, take_generation,
}
use pg_batch.Bridge.Publish.{Accepted, publish_batch-Accepted}
use pg_batch.Bridge.Life.{Steps, Live, publish, clearing, done, step, Steps-Live}
use pg_batch.Bridge.Sealed.{SealedWith, Steps-SealedWith}
use pg_batch.Tests.{five, five_widths}

abbrev abi : Abi
abi = record { batch_version = 1; batch_min_size = 40; ops_version = 1; ops_min_size = 48 }

abbrev pub batch_of : ℕ → PgBatch
batch_of generation = record {
  abi_version = 1;
  struct_size = 64;
  generation = generation;
  ops =
      some (record { address = 9; abi_version = 1; struct_size = 64; has_get_datum_column = true });
  null_words = false;
  selection = five;
}

abbrev pub spec : RequestSpec
spec = record {
  filter_columns = 0 ∷ [];
  project_columns = [];
  output_mode = output_rows;
  max_rows = pos 64;
}

abbrev pub start : State
start = record {
  binding = record {
    ncolumns = 2;
    request = spec;
    batch = none;
    validated_ops = none;
    request_sealed = false;
    finished = false;
  };
  batches = λ p. batch_of 0;
  next_generation = 1;
}

abbrev published : State
published = record {
  binding = record {
    ncolumns = 2;
    request = spec;
    batch = some 3;
    validated_ops = some 9;
    request_sealed = true;
    finished = false;
  };
  batches = set_generation (λ p. batch_of 0) 3 1;
  next_generation = 2;
}

publishes : publish_batch abi start (some 3) ≡ ok published
unfolding publish_batch check_batch check_ops accept take_generation is_zero bit_and shift_left
publishes = refl

run : Steps abi start (clear_binding published)
run =
    step start published (clear_binding published)
      (step start start published (done start) (publish start published (some 3) publishes))
      (clearing published)

publish_batch-Accepted_example : Accepted abi start 3 published
publish_batch-Accepted_example = publish_batch-Accepted abi start published 3 publishes five_widths

Steps-Live_example : Live (clear_binding published)
Steps-Live_example = Steps-Live abi start (clear_binding published) (λ q. refl) run

Steps-SealedWith_example : SealedWith spec (clear_binding published)
Steps-SealedWith_example =
    Steps-SealedWith abi spec published (clear_binding published) (refl, refl)
      (step published published (clear_binding published) (done published) (clearing published))
