-- ===== src/Route/Guard.antt =====
-- The middleware of route/middleware.go that guards other handlers: `queryTokenChecker` and
-- `panicCatcher`. A handler is a function of the state and the reply so far.
use tracing_proxy.Base.{
  ◌≡◌, ◌≢◌, refl, String, Option, none, some, true, false, if◌then◌else◌, same_text, same_text_iff,
  Bool-cases, inl, inr, arith,
}
use Prim.Native.String.{◌++◌}
use tracing_proxy.Route.Handlers.{
  HandlerError, Reply, no_reply, handler_return_with_error, write_header, write_body,
}

abbrev pub err_auth_needed : HandlerError
err_auth_needed = record {
  msg = "unknown API key - check your credentials";
  status = 400;
  detailed = true;
  friendly = true;
}

abbrev pub err_caught_panic : HandlerError
err_caught_panic = record { msg = "caught panic"; status = 500; detailed = false; friendly = false }

-- the reply to a missing token in the configuration, after which the code goes on
unfoldable pub warned : (String → String) → String → Reply → Reply
unfolding same_text handler_return_with_error
warned format required w =
    if same_text required ""
    then handler_return_with_error format err_auth_needed
        "/query endpoint is not authorized for use (specify QueryAuthToken in config)" w
    else w

status-warned :
    (format : String → String) (required : String) (err : String)
    → (handler_return_with_error format err_auth_needed err
        (warned format required no_reply)).status
      ≡ some 400
unfolding warned handler_return_with_error write_header write_body
status-warned format required err = ground arith

module _ {State : Type 0} (format : String → String) where
  unfoldable pub query_token_checker :
      (State → Reply → State × Reply) → String → String → State → Reply → State × Reply
  unfolding warned same_text handler_return_with_error
  query_token_checker next required token s w =
      if same_text token required then next s (warned format required w) else (
        s,
        handler_return_with_error format err_auth_needed
            ("token " ++ token ++ " found in X-OpsRamp-Refinery-Query not authorized for query")
            (warned format required w),
      )

  -- a handler that may panic, with what it has written before and the text of the panic
  unfoldable pub panic_catcher :
      (State → Reply → (State × Reply) × Option String) → State → Reply → State × Reply
  unfolding handler_return_with_error
  panic_catcher next s w =
      let (done, panic) = next s w in
      elim panic [
        | none ↦ done
        | some e ↦ (done.0, handler_return_with_error format err_caught_panic e done.1)
      ]

  -- For a token other than the configured one, `queryTokenChecker` does not call the handler
  -- that it guards, and replies with the status 400.
  pub query_token_checker_lem :
      (next : State → Reply → State × Reply) (required token : String) (s : State)
      → token ≢ required
      → ((query_token_checker next required token s no_reply).0 ≡ s)
        × ((query_token_checker next required token s no_reply).1.status ≡ some 400)
  unfolding query_token_checker
  query_token_checker_lem next required token s other =
      elim (Bool-cases (same_text token required)) [
        | inl e ↦ absurd (other ((same_text_iff token required).0 e))
        | inr e ↦ rw e (
          refl,
          status-warned format required
              ("token " ++ token ++ " found in X-OpsRamp-Refinery-Query not authorized for query"),
        )
      ]
