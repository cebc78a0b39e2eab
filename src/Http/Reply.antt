-- ===== src/Http/Reply.antt =====
-- The body of a reply with its status code, and how a handler replies to what a service returns.
use Prim.Native.String.{String, ◌++◌}
use devops_manager.Prelude.{ℕ, Bool, true, false, Option, none, some}
use devops_manager.Db.{Error, Result, Session, ok, err}

pub record CommonResponse (D : Type 0) : Type 0 where
  pub success : Bool
  pub payload : Option D
  pub error_message : String
  pub message : String

pub record Reply (D : Type 0) : Type 0 where
  pub code : ℕ
  pub body : CommonResponse D

module _ {D : Type 0} where
  unfoldable pub send_success_response : D → Reply D
  send_success_response d = record {
    code = 200;
    body = record { success = true; payload = some d; error_message = ""; message = "" };
  }

  unfoldable pub send_error_response : ℕ → String → Reply D
  send_error_response status_code message = record {
    code = status_code;
    body = record { success = false; payload = none; error_message = message; message = "" };
  }

  unfoldable pub send_message_response : String → Reply D
  send_message_response message = record {
    code = 200;
    body = record { success = true; payload = none; error_message = ""; message = message };
  }

  -- `if err != nil` of a handler, and its reply else.
  unfoldable pub replied {ℓ} :
      {A : Type ℓ}
      → (error_text : Error → String) → ℕ
      → String
      → (A → D)
      → Result A × Session
      → Reply D × Session
  unfolding send_success_response send_error_response
  replied error_text status_code what respond (ok a, s) = (send_success_response (respond a), s)
  replied error_text status_code what respond (err e, s) =
      (send_error_response status_code (what ++ error_text e), s)

  -- The handler's first test: a parameter of the path must be there.
  abbrev pub with_param :
      Option ℕ → String → (ℕ → Session → Reply D × Session) → Session → Reply D × Session
  unfolding send_error_response
  with_param none message handle s = (send_error_response 400 message, s)
  with_param (some id) message handle s = handle id s
