-- ===== src/Request/Printed.antt =====
-- A request in print, with what follows it.
use wslyh.Request.Chars.{cr, lf}
use wslyh.Request.Fields.{print_fields}
use wslyh.Request.{StringMap}
use wslyh.Base.{Bytes, [], ap, append_assoc, refl, sym, ◌++◌, ◌∙◌, ◌∷◌, ◌≡◌}
use wslyh.Request.Message.{Message, print}

-- a text in front of one that has a tail
before-tail : (xs : Bytes) {a : Bytes} (b t : Bytes) → a ≡ b ++ t → xs ++ a ≡ (xs ++ b) ++ t
before-tail xs b t e = ap (λ o. xs ++ o) e ∙ sym (append_assoc xs b t)

print_fields-tail :
    (fs : StringMap) (a t : Bytes) → print_fields fs (a ++ t) ≡ print_fields fs a ++ t
print_fields-tail [] a t = refl
print_fields-tail ((k, v) ∷ fs) a t =
    let rest = ap (λ o. cr ∷ lf ∷ o) (print_fields-tail fs a t) in
    before-tail k _ t (ap (λ o. b':' ∷ b' ' ∷ o) (before-tail v _ t rest))

pub print-tail : (m : Message) (t : Bytes) → print m t ≡ print m [] ++ t
print-tail m t =
    let e5 = ap (λ o. cr ∷ lf ∷ o) (print_fields-tail m.fields (cr ∷ lf ∷ []) t) in
    let e4 = ap (λ o. b'.' ∷ m.minor.first ∷ o) (before-tail m.minor.more _ t e5) in
    let e3 = ap (λ o. b'/' ∷ m.major.first ∷ o) (before-tail m.major.more _ t e4) in
    let e2 = ap (λ o. b' ' ∷ m.protocol.first ∷ o) (before-tail m.protocol.more _ t e3) in
    let e1 = ap (λ o. b' ' ∷ b'/' ∷ o) (before-tail m.path _ t e2) in
    ap (λ o. m.method.first ∷ o) (before-tail m.method.more _ t e1)
