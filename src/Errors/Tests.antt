-- ===== src/Errors/Tests.antt =====
-- The theorem on error answers at a concrete error.
use rustygate.Prelude.{ℕ, ◌≡◌, some}
use rustygate.Errors.{AppError, gateway_rate_limited, into_response}
use rustygate.Errors.Answers.{answer_table, read_answer, with_least_wait, into_response_lem}

into_response_lem_example :
    let e : AppError ℕ = gateway_rate_limited (some 7) 0 in
    (into_response e ≡ answer_table e) × (read_answer (into_response e) ≡ some (with_least_wait e))
into_response_lem_example = into_response_lem {U = ℕ} (gateway_rate_limited (some 7) 0)
