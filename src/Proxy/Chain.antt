-- ===== src/Proxy/Chain.antt =====
-- `chainHandlers` of proxy/http.go is the nesting of its middleware, the first one outermost.
use pact_go.Common.{ℕ, zero, suc, List, [], ◌∷◌, ◌≡◌, refl, ap, ◌∙◌, inl, inr, Option-cases}
use pact_go.Common.Lists.{length, get_elem?}
use pact_go.Http.{Handler, Middleware}
use pact_go.Proxy.{chain_loop, chain_handlers}

-- The first middleware around the chain of the others.
unfoldable pub nest : {W : Type 0} → List (Middleware W) → Handler W → Handler W
nest [] final = final
nest (m ∷ mw) final = m (nest mw final)

-- The rounds that reach below the head.
chain_loop-cons :
    {W : Type 0} (m : Middleware W) (mw : List (Middleware W)) (i : ℕ) (last : Handler W)
    → chain_loop (m ∷ mw) (suc i) last ≡ m (chain_loop mw i last)
unfolding chain_loop
chain_loop-cons m mw zero last = refl
chain_loop-cons m mw (suc i) last = elim (Option-cases (get_elem? mw i)) [
  | inl missing ↦ rw (missing, chain_loop) (chain_loop-cons m mw i last)
  | inr (m', found) ↦ rw (found, chain_loop) (chain_loop-cons m mw i (m' last))
]

-- For every list of middleware and every final handler, the loop of `chainHandlers` gives the
-- nesting: the first of the list is the outermost, the final handler the innermost.
pub chain_handlers-nest :
    {W : Type 0} (mw : List (Middleware W)) (final : Handler W)
    → chain_handlers mw final ≡ nest mw final
unfolding chain_handlers nest
chain_handlers-nest [] final = unfold chain_loop in refl
chain_handlers-nest (m ∷ mw) final =
    chain_loop-cons m mw (length mw) final ∙ ap m (chain_handlers-nest mw final)
