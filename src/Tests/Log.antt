-- ===== src/Tests/Log.antt =====
-- A line of two characters on the line of the serial test.
use edk2_arc.Base.{
  ℕ, ◌+◌, ◌≡◌, refl, true, some, List, [], ◌∷◌, ◌++◌, take, if◌then◌else◌, ◌==◌, ==_refl, ne→test,
  arith,
}
use edk2_arc.Edk2.{Mem}
use edk2_arc.Serial.{fifo_size}
use edk2_arc.Utils.Log.{log, IsPrinter, log_lem}
use edk2_arc.Tests.Serial.{Line, bus, pcd, quiet, uart}

abbrev text : List ℕ
text = 0x48 ∷ 0x69 ∷ []

abbrev print : ℕ → ℕ → Mem → ℕ × Mem
print str size m = (
  2,
  λ a. if a == str then 0x48 else if a == str + 1 then 0x69 else if a == str + 2 then 0 else m a,
)

print-IsPrinter : IsPrinter print text
print-IsPrinter = record {
  count = λ str m. refl;
  stored = λ str m.
      rw (==_refl str, if◌then◌else◌, ne→test (str + 1) str (omega arith), ==_refl (str + 1)) refl;
}

log_lem_example :
    (s' : Line) × (log bus (pcd 1) print true (λ a. 0) 2 256 100 quiet ≡ some s')
    × (s'.sent ≡ [] ++ take 255 text)
unfolding fifo_size uart
log_lem_example =
    log_lem bus (pcd 1) uart print text (λ a. 0) 2 256 100 quiet print-IsPrinter (omega arith)
      (omega arith) (omega arith) (omega arith) (omega arith) (omega arith)
