-- ===== src/Handlers/Middleware.antt =====
-- src/handlers.rs: the middleware that finds the RPC method, and what reaches the next layer.
use Prim.Native.String.{len}
use sol_rpc_router.Base.{
  ℕ, ◌*◌, if◌then◌else◌, String, ◌≡◌, ◌≤◌, refl, ◌⊎◌, inl, inr, Option, none, some, arith,
  Bool-cases, leb, leb→le,
}
use sol_rpc_router.Handlers.{Request}

-- 10 MB.
abbrev pub max_body_size : ℕ
max_body_size = 10 * 1024 * 1024

-- The body as it comes: its bytes with their number, or a failure to read it.
pub data Incoming : Type 0 where
  bytes : String → Incoming
  broken : Incoming

-- `to_bytes(body, MAX_BODY_SIZE)`.
abbrev pub to_bytes : Incoming → Option String
to_bytes (bytes b) = if leb (len b) max_body_size then some b else none
to_bytes broken = none

-- `extract_rpc_method`, up to the call of the next layer; `probe` is the partial deserialisation:
-- the method of a body, if it parses and has one.
unfoldable pub extract_rpc_method : (String → Option String) → Incoming → Request → Request
extract_rpc_method probe incoming req = elim (to_bytes incoming) [
  | none ↦ record req { body = "" }
  | some body ↦ elim (probe body) [
    | none ↦ record req { body = body }
    | some method ↦ record req { body = body; rpc_method = some method }
  ]
]

-- A body of at most 10 MB reaches the next layer as it came; a longer one, or one that cannot be
-- read, is replaced by an empty body and leaves the RPC method as it was. The method that the next
-- layer sees is then that of the body that it sees, whenever that body has one.
pub extract_rpc_method_lem :
    (probe : String → Option String) (incoming : Incoming) (req : Request)
    → ((b : String) × (incoming ≡ bytes b)
        × (len b ≤ max_body_size)
        × ((extract_rpc_method probe incoming req).body ≡ b)
        × ((m : String)
            → probe b ≡ some m
            → (extract_rpc_method probe incoming req).rpc_method ≡ some m)
        × (probe b ≡ none → (extract_rpc_method probe incoming req).rpc_method ≡ req.rpc_method))
      ⊎ ((to_bytes incoming ≡ none)
          × ((extract_rpc_method probe incoming req).body ≡ "")
          × ((extract_rpc_method probe incoming req).rpc_method ≡ req.rpc_method))
unfolding extract_rpc_method
extract_rpc_method_lem probe broken req = inr (refl, refl, refl)
extract_rpc_method_lem probe (bytes b) req = elim (Bool-cases (leb (len b) max_body_size)) [
  | inl fits ↦ inl (
    b,
    refl,
    leb→le (len b) max_body_size fits,
    ground arith,
    λ m h. ground arith,
    λ h. ground arith,
  )
  | inr long ↦ inr (rw long, ground arith, ground arith)
]
