-- ===== src/Common/Perms.antt =====
-- What holds of every element holds of them in any order.
use mathlib.Core.Logic.{◌↔◌}
use mathlib.Core.List.{List, Permᴰ}
use mathlib.Core.List.Permᴰ.{nil, cons, swap, trans}
use pact_go.Common.Lists.{All}

module _ {ℓ κ} {A : Type ℓ} (P : A → Type κ) where
  pub All-Permᴰ : {xs ys : List A} → Permᴰ xs ys → All P xs ↔ All P ys
  All-Permᴰ nil = (λ h. h, λ h. h)
  All-Permᴰ (cons e p) =
      let (f, g) = All-Permᴰ p in (λ (h, hs). (rw (← e) h, f hs), λ (h, hs). (rw e h, g hs))
  All-Permᴰ (swap e e') =
      (λ (h, (h', hs)). (rw (← e') h', (rw (← e) h, hs)), λ (h, (h', hs)). (rw e h', (rw e' h, hs)))
  All-Permᴰ (trans p q) =
      let (f, g) = All-Permᴰ p in let (f', g') = All-Permᴰ q in (λ h. f' (f h), λ h. g (g' h))
