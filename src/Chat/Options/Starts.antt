-- ===== src/Chat/Options/Starts.antt =====
-- How many sessions a launch has started.
use ai_infra_demo.Base.{ℕ, ◌+◌, ◌≡◌}
use ai_infra_demo.Chat.Session.{SessionArgs}
use ai_infra_demo.Chat.Options.{Launch, once, until_interrupt}

-- The launch starts sessions with these arguments, n of them by the time that `taken` have been taken: as
-- many as asked for, and with `--continuous` one more for each that was taken.
abbrev pub Starts : Launch → SessionArgs → ℕ → ℕ → Type 0
Starts (once c own) args taken n = (own ≡ args) × (n ≡ c)
Starts (until_interrupt c own) args taken n = (own ≡ args) × (n ≡ c + taken)
Starts l args taken n = ⊥
