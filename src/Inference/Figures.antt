-- ===== src/Inference/Figures.antt =====
-- The figures that a script reports, against the times that they are rounded from.
use ai_infra_demo.Base.{ℕ, ◌+◌, ◌-◌, ◌*◌, ◌≤◌, ◌<◌, ◌≡◌, ◌↔◌, arith, lt→ltb}
use ai_infra_demo.Py.Result.{raised, zero_division_error}
use ai_infra_demo.Py.Round.{round_div-near}
use ai_infra_demo.Inference.{
  Timed, total_tokens, total_generation, ttft_ms, tpot_ms, throughput_tps,
}
use ai_infra_demo.Inference.Times.{IsTimed}

-- With two tokens or more, TTFT and TPOT times the tokens after the first make up the time of the
-- whole request, up to half a digit for each token.
pub figures_near_elapsed :
    (t : Timed) (now : ℕ)
    → IsTimed t now
    → 1 < total_tokens t
    → (2 * (ttft_ms t * 100000 + (total_tokens t - 1) * 100000 * tpot_ms t)
        ≤ 2 * (t.t_done - t.t_request_sent) + total_tokens t * 100000)
      × (2 * (t.t_done - t.t_request_sent)
          ≤ 2 * (ttft_ms t * 100000 + (total_tokens t - 1) * 100000 * tpot_ms t)
            + total_tokens t * 100000)
unfolding ttft_ms tpot_ms total_generation
figures_near_elapsed t now h many =
    let n = total_tokens t in
    rw (lt→ltb 1 n many) (
      omega (
        arith,
        h.sent_first,
        h.first_done,
        round_div-near (t.t_first_token - t.t_request_sent) 100000 (omega arith),
        round_div-near (t.t_done - t.t_first_token) ((n - 1) * 100000) (omega arith),
      ))

-- With one token or none there is no TPOT.
tpot_ms_few : (t : Timed) → total_tokens t ≤ 1 → tpot_ms t ≡ 0
unfolding tpot_ms
tpot_ms_few t h = ground arith

-- The throughput raises exactly where no time has passed between the request and the end.
pub throughput_raises_iff :
    (t : Timed) (now : ℕ)
    → IsTimed t now
    → (throughput_tps t ≡ raised zero_division_error) ↔ (t.t_done ≡ t.t_request_sent)
unfolding throughput_tps
throughput_raises_iff t now h = ground (arith, h.sent_first, h.first_done)
