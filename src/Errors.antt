-- ===== src/Errors.antt =====
-- The exceptions that the program raises or lets through, and code that may raise.
use prehnite.Text.{Str}

pub data Error : Type 0 where
  -- `RuntimeError`, `SandboxError`, `KeyError`, `TaskLoadError`, `docker.errors.APIError`, with
  -- their message
  runtime_error sandbox_error key_error task_load_error docker_error : Str → Error
  -- pydantic's `ValidationError`, `json.JSONDecodeError`, `FileNotFoundError`, `AttributeError`,
  -- `ValueError`, `TypeError`
  validation_error json_error file_not_found attribute_error value_error type_error : Error

pub data Result {ℓ} (A : Type ℓ) : Type ℓ where
  ok : A → Result A
  err : Error → Result A

infixl 5 ◌>>=◌
abbrev pub ◌>>=◌ {ℓ κ} : {A : Type ℓ} {B : Type κ} → Result A → (A → Result B) → Result B
ok a >>= f = f a
err e >>= f = err e
