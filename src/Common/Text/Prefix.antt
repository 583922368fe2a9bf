-- ===== src/Common/Text/Prefix.antt =====
-- Prefixes of a text that is put together.
use Prim.Native.Char.{code}
use Prim.Native.String.{[], ◌∷◌, ◌++◌}
use mathlib.Core.Path.{subst⁻¹}
use text.Mathlib.TextLemmas.{nil-append, cons-append}
use godxfeed.Common.{String, ◌≡◌, refl, ap, ◌∙◌, true, arith, eqb_refl}
use godxfeed.Common.Text.{has_prefix, drop_like, trim_prefix}

pub has_prefix-append : (p v : String) → has_prefix (p ++ v) p ≡ true
unfolding has_prefix
has_prefix-append [] v = refl
has_prefix-append (c ∷ p) v =
    subst⁻¹ (λ t. has_prefix t (String.◌∷◌ c p) ≡ true) (cons-append c p v)
      (ground (arith, eqb_refl (code c), has_prefix-append p v))

drop_like-append : (p v : String) → drop_like (p ++ v) p ≡ v
drop_like-append [] v = nil-append v
drop_like-append (c ∷ p) v =
    ap (λ t. drop_like t (String.◌∷◌ c p)) (cons-append c p v) ∙ drop_like-append p v

pub trim_prefix-append : (p v : String) → trim_prefix (p ++ v) p ≡ v
unfolding trim_prefix
trim_prefix-append p v = rw (has_prefix-append p v) (drop_like-append p v)
