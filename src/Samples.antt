-- ===== src/Samples.antt =====
-- Data that the examples of several parts share: keys in unary, and a database without faults.
use gao_cloud.Prelude.{ℕ, zero, suc, ◌≡◌, refl, ap, String, true, IsFormat}
use gao_cloud.Kvzoo.{Faults}

abbrev pub unary : ℕ → String
unary zero = ""
unary (suc n) = String.◌∷◌ "a" (unary n)

pub unary-IsFormat : IsFormat unary
unary-IsFormat zero zero e = refl
unary-IsFormat zero (suc b) e = cc e
unary-IsFormat (suc a) zero e = cc e
unary-IsFormat (suc a) (suc b) e = let t : unary a ≡ unary b = cc e in ap suc (unary-IsFormat a b t)

abbrev pub all_fine : Faults
all_fine = record { begins = true; writes = true; commits = true }
