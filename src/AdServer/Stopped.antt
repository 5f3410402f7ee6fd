-- ===== src/AdServer/Stopped.antt =====
-- `AdServer::stop` of src/AdServer.cpp after `run`, once and twice.
use aidt.Prelude.{◌≡◌, refl, none, some, if◌then◌else◌, Bool-cases, inl, inr}
use aidt.Settings.{AdbaseConfig}
use aidt.AdServer.{AdServer, new_server, init, stop, stop_http, stop_mc, stop_head}

-- Whichever servers the settings start, and as long as the settings stay: the first `stop` deletes only
-- what is there. A second `stop` does so too if no HTTP server was started; if one was, it deletes the
-- manager of the HTTP server again, which is undefined behaviour.
pub stop_twice :
    (conf : AdbaseConfig)
    → (s : AdServer) × (stop conf (init conf new_server) ≡ some s)
      × (stop conf s ≡ (if conf.is_start_http then none else some s))
unfolding stop stop_http stop_mc stop_head init
stop_twice conf = elim (Bool-cases conf.is_start_http) [
  | inl h ↦ elim (Bool-cases conf.is_start_mc) [
    | inl m ↦ elim (Bool-cases conf.is_start_head) [
      | inl d ↦ rw (h, m, d) (_, refl, refl)
      | inr d ↦ rw (h, m, d) (_, refl, refl)
    ]
    | inr m ↦ elim (Bool-cases conf.is_start_head) [
      | inl d ↦ rw (h, m, d) (_, refl, refl)
      | inr d ↦ rw (h, m, d) (_, refl, refl)
    ]
  ]
  | inr h ↦ elim (Bool-cases conf.is_start_mc) [
    | inl m ↦ elim (Bool-cases conf.is_start_head) [
      | inl d ↦ rw (h, m, d) (_, refl, refl)
      | inr d ↦ rw (h, m, d) (_, refl, refl)
    ]
    | inr m ↦ elim (Bool-cases conf.is_start_head) [
      | inl d ↦ rw (h, m, d) (_, refl, refl)
      | inr d ↦ rw (h, m, d) (_, refl, refl)
    ]
  ]
]
