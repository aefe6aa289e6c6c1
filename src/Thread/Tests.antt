-- ===== src/Thread/Tests.antt =====
-- The theorem on names at concrete threads.
use moduo_write.Common.{◌≡◌, ◌≢◌, [], ◌∷◌, arith}
use moduo_write.System.ToyLibc.{toy_libc, toy_libc_laws}
use moduo_write.Thread.{new}
use moduo_write.Thread.Names.{new-name}

new-name_example :
    ((new toy_libc.decimal (65 ∷ []) 4).0.name ≡ 65 ∷ [])
    × ((new toy_libc.decimal (65 ∷ []) 4).1 ≡ 5)
    × ((new toy_libc.decimal [] 3).0.name ≢ (new toy_libc.decimal [] 4).0.name)
new-name_example =
    new-name toy_libc_laws (65 ∷ []) 3 4 (λ e. cc e) (omega arith) (omega arith) (omega arith)
