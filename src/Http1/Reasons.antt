-- ===== src/Http1/Reasons.antt =====
-- The reason that `txresp` of pkg/http1/handler.go sends.
use gtest.Common.{
  ℕ, suc, ◌≡◌, refl, sym, ap, ◌∙◌, false, [], ◌∷◌, map, Option, some, Bytes, codes, bytes_eq, ℤ,
  pos, Result, ok, err,
}
use gtest.Common.Maps.{lookup, bytes_key}
use gtest.Common.Numerals.{atoi}
use gtest.Http1.{Http}
use gtest.Http1.Input.{HttpError}
use gtest.Http1.Send.{
  Headers, TxRespOptions, tx_resp, send_resp, write_resp, resp_defaults, header_line, default_to,
  default_reason, generate_from, prepare_body, status_of,
}
use gtest.Http1.Handler.{HandlerError, read_options, new_resp_options, or_failed, handle_tx_resp}

inj : (a b : Http) → ◌≡◌ {A = Result HandlerError Http} (ok a) (ok b) → a ≡ b
inj a b e = cc

-- What a response leaves in the session.
send_resp-reason :
    (h h' : Http) (opts : TxRespOptions) (r : Result HttpError (Bytes × Headers))
    → opts.reason ≡ codes "OK"
    → ◌≡◌ {A = Result HandlerError Http} (or_failed (send_resp h opts r)) (ok h')
    → (h'.status ≡ status_of opts) × (h'.reason ≡ codes "OK")
send_resp-reason h h' opts (err e) k eq = absurd cc
send_resp-reason h h' opts (ok (body, m)) k eq =
    let sent = write_resp h opts body (map header_line (resp_defaults h opts m)) in
    let same = inj sent h' eq in
    (
      ap (λ (w : Http). w.status) (sym same),
      ap (λ (w : Http). w.reason) (sym same) ∙ ap (default_to (default_reason (status_of opts))) k,
    )

-- `txresp -status` with any status that is a positive number sends it with the reason OK, and never with the
-- default reason of the status, if the response is sent.
pub handle_tx_resp_reason :
    (read_file : Bytes → Option Bytes) (compress : ℤ → Bytes → Option Bytes) (h h' : Http)
    (text : Bytes) (n : ℕ)
    → atoi text ≡ some (pos (suc n))
    → handle_tx_resp read_file compress h (codes "-status" ∷ text ∷ []) ≡ ok h'
    → (h'.status ≡ pos (suc n)) × (h'.reason ≡ codes "OK")
unfolding handle_tx_resp read_options lookup bytes_eq tx_resp generate_from
handle_tx_resp_reason read_file compress h h' text n e eq =
    let opts = record new_resp_options { status = pos (suc n) } in
    let start : handle_tx_resp read_file compress h (codes "-status" ∷ text ∷ [])
        ≡ or_failed (tx_resp compress h opts) =
      rw e refl in
    send_resp-reason h h' opts (prepare_body compress h.gzip_level false [] []) refl
      (sym start ∙ eq)
