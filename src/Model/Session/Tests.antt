-- ===== src/Model/Session/Tests.antt =====
-- A session that runs a prompt, and the theorems at it.
use pocket_llm.Prelude.{ℕ, ◌≡◌, refl, [], ◌∷◌, none, some, arith}
use pocket_llm.Model.KvCache.{
  Buffer, Shape, KvCache, grow_loop, grown_capacity, grow_kv, holds, ensure_kv, reserve,
  cache_length,
}
use pocket_llm.Model.Session.{
  wrong_position, done, failed, Session, check_batch, lengths_after, forward_impl, model_forward,
  forward, session_reserve, after_reserve,
}
use pocket_llm.Model.Session.Position.{InStep, start, ran, Reaches-InStep, forward-session_reserve}

abbrev shape : Shape
shape = record { n_layer = 2; kv_width = 2; context = 1024; rope_sections = 0 }

abbrev zeros : Buffer ℕ
zeros at = 0

abbrev opened : Session ℕ
opened = record {
  position = 0;
  model = some (record { cache = none; capacity = 0; slots = 0; seq_len = 0 ∷ [] });
}

abbrev cache : KvCache ℕ
cache = record { cache = some zeros; capacity = 256; slots = 1; seq_len = 5 ∷ [] }

abbrev prompted : Session ℕ
prompted = record { position = 5; model = some cache }

prompt_runs : forward shape zeros zeros opened 5 ≡ done prompted
unfolding forward model_forward forward_impl check_batch lengths_after ensure_kv holds
    grown_capacity grow_loop grow_kv cache_length
prompt_runs = refl

Reaches-InStep_example : InStep prompted
unfolding cache_length
Reaches-InStep_example =
    Reaches-InStep shape opened prompted refl
      (ran zeros zeros opened opened prompted 5 (start opened) prompt_runs)

abbrev reserved_session : Session ℕ
reserved_session = record {
  position = 0;
  model = some (record cache { capacity = 512; slots = 4 });
}

reservation : session_reserve shape zeros zeros prompted 300 4 ≡ done reserved_session
unfolding session_reserve after_reserve reserve holds grown_capacity grow_loop
reservation = refl

forward-session_reserve_example :
    forward shape zeros zeros reserved_session 1 ≡ failed wrong_position
unfolding cache_length
forward-session_reserve_example =
    forward-session_reserve shape zeros zeros cache reserved_session 5 300 4 1 (omega arith)
      reservation
