-- ===== src/Rpc/Errors.antt =====
-- frontend/src/lib/sorobanRpcPool.ts: the errors of the pool, and which of them are retried.
use pactum.Prelude.{
  Bool, true, false, ◌&&◌, ◌||◌, List, [], ◌∷◌, Option, none, some, if◌then◌else◌, ◌==◌, Text,
  text_eq, codes,
}
use pactum.Prelude.Int.{ℤ, pos, negsuc, leb_ℤ}

-- What `isRetryableError` looks at in an error object; `none` where it has no number or string.
pub record ErrorInfo : Type 0 where
  pub response_status : Option ℤ
  pub status : Option ℤ
  pub code : Option ℤ
  pub name : Option Text
  pub message : Option Text

pub data RpcError : Type 0 where
  -- `RetryableRpcError`
  retryable_rpc : Text → RpcError
  -- A thrown value that is no object.
  primitive : Text → RpcError
  -- An `Error` object. No other object is thrown.
  thrown : ErrorInfo → RpcError

-- `text.startsWith(hint)` and `text.includes(hint)`
unfoldable pub is_prefix : Text → Text → Bool
is_prefix [] text = true
is_prefix (h ∷ hs) [] = false
is_prefix (h ∷ hs) (c ∷ cs) = h == c && is_prefix hs cs

unfoldable pub includes : Text → Text → Bool
includes [] hint = is_prefix hint []
includes (c ∷ cs) hint = is_prefix hint (c ∷ cs) || includes cs hint

-- NETWORK_ERROR_HINTS
abbrev pub network_error_hints : List Text
network_error_hints =
    codes "fetch failed"
    ∷ codes "failed to fetch"
    ∷ codes "network error"
    ∷ codes "econnrefused"
    ∷ codes "econnreset"
    ∷ codes "enotfound"
    ∷ codes "etimedout"
    ∷ codes "timeout of "
    ∷ codes "socket hang up"
    ∷ codes "getaddrinfo"
    ∷ codes "load failed"
    ∷ codes "request timed out"
    ∷ []

unfoldable pub some_hint : List Text → Text → Bool
some_hint [] message = false
some_hint (hint ∷ hints) message = includes message hint || some_hint hints message

unfoldable pub between : ℤ → ℤ → ℤ → Bool
between lo hi n = leb_ℤ lo n && leb_ℤ n hi

-- The HTTP status of an error, if it has one.
unfoldable pub known_status : ErrorInfo → Option ℤ
known_status e = elim e.response_status [
  | some status ↦ some status
  | none ↦ elim e.status [
    | some status ↦ if between (pos 100) (pos 599) status then some status else none
    | none ↦ none
  ]
]

unfoldable pub is_retryable_status : ℤ → Bool
is_retryable_status status =
    between (pos 429) (pos 429) status || between (pos 500) (pos 599) status

-- -32603, and -32000 down to -32099.
unfoldable pub is_retryable_code : ℤ → Bool
is_retryable_code code =
    between (negsuc 32602) (negsuc 32602) code || between (negsuc 32098) (negsuc 31999) code

abbrev pub or_empty : Option Text → Text
or_empty none = []
or_empty (some t) = t

module _ (to_lower_case : Text → Text) where
  unfoldable pub is_network_failure : ErrorInfo → Bool
  is_network_failure e =
      let name = to_lower_case (or_empty e.name) in
      let message = to_lower_case (or_empty e.message) in
      text_eq name (codes "fetcherror")
      || (text_eq name (codes "networkerror")
          || (text_eq name (codes "timeouterror")
              || ((text_eq name (codes "typeerror") && some_hint network_error_hints message)
                  || some_hint network_error_hints message)))

  unfoldable pub is_retryable_info : ErrorInfo → Bool
  is_retryable_info e = elim (known_status e) [
    | some status ↦ is_retryable_status status
    | none ↦ elim e.code [ some code ↦ is_retryable_code code | none ↦ is_network_failure e ]
  ]

  unfoldable pub is_retryable_error : RpcError → Bool
  is_retryable_error (retryable_rpc message) = true
  is_retryable_error (primitive text) = false
  is_retryable_error (thrown e) = is_retryable_info e
