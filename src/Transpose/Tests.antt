-- ===== src/Transpose/Tests.antt =====
-- A run with zero memories, tiles in rising and in falling order.
use no_cgbp_rtl.Base.{ℕ, zero, suc, ◌+◌, ◌*◌, ◌≡◌, refl, inl, inr, List, [], ◌∷◌, arith}
use no_cgbp_rtl.Transpose.{Tiles, outputs, printed, transposed, announced}
use no_cgbp_rtl.Transpose.Blocks.{Complete, printed-transposed}

abbrev rising : List (ℕ × ℕ)
rising =
    (0, 0)
    ∷ (0, 1)
    ∷ (0, 2)
    ∷ (0, 3)
    ∷ (1, 0)
    ∷ (1, 1)
    ∷ (1, 2)
    ∷ (1, 3)
    ∷ (2, 0)
    ∷ (2, 1)
    ∷ (2, 2)
    ∷ (2, 3)
    ∷ (3, 0)
    ∷ (3, 1)
    ∷ (3, 2)
    ∷ (3, 3)
    ∷ []

rising-Complete : Complete rising
rising-Complete zero zero hx hy = inl refl
rising-Complete zero (suc zero) hx hy = inr (inl refl)
rising-Complete zero (suc (suc zero)) hx hy = inr (inr (inl refl))
rising-Complete zero (suc (suc (suc zero))) hx hy = inr (inr (inr (inl refl)))
rising-Complete zero (suc (suc (suc (suc y)))) hx hy = absurd (omega arith)
rising-Complete (suc zero) zero hx hy = inr (inr (inr (inr (inl refl))))
rising-Complete (suc zero) (suc zero) hx hy = inr (inr (inr (inr (inr (inl refl)))))
rising-Complete (suc zero) (suc (suc zero)) hx hy = inr (inr (inr (inr (inr (inr (inl refl))))))
rising-Complete (suc zero) (suc (suc (suc zero))) hx hy =
    inr (inr (inr (inr (inr (inr (inr (inl refl)))))))
rising-Complete (suc zero) (suc (suc (suc (suc y)))) hx hy = absurd (omega arith)
rising-Complete (suc (suc zero)) zero hx hy =
    inr (inr (inr (inr (inr (inr (inr (inr (inl refl))))))))
rising-Complete (suc (suc zero)) (suc zero) hx hy =
    inr (inr (inr (inr (inr (inr (inr (inr (inr (inl refl)))))))))
rising-Complete (suc (suc zero)) (suc (suc zero)) hx hy =
    inr (inr (inr (inr (inr (inr (inr (inr (inr (inr (inl refl))))))))))
rising-Complete (suc (suc zero)) (suc (suc (suc zero))) hx hy =
    inr (inr (inr (inr (inr (inr (inr (inr (inr (inr (inr (inl refl)))))))))))
rising-Complete (suc (suc zero)) (suc (suc (suc (suc y)))) hx hy = absurd (omega arith)
rising-Complete (suc (suc (suc zero))) zero hx hy =
    inr (inr (inr (inr (inr (inr (inr (inr (inr (inr (inr (inr (inl refl))))))))))))
rising-Complete (suc (suc (suc zero))) (suc zero) hx hy =
    inr (inr (inr (inr (inr (inr (inr (inr (inr (inr (inr (inr (inr (inl refl)))))))))))))
rising-Complete (suc (suc (suc zero))) (suc (suc zero)) hx hy =
    inr (inr (inr (inr (inr (inr (inr (inr (inr (inr (inr (inr (inr (inr (inl refl))))))))))))))
rising-Complete (suc (suc (suc zero))) (suc (suc (suc zero))) hx hy =
    inr
      (inr (inr (inr (inr (inr (inr (inr (inr (inr (inr (inr (inr (inr (inr (inl refl)))))))))))))))
rising-Complete (suc (suc (suc zero))) (suc (suc (suc (suc y)))) hx hy = absurd (omega arith)
rising-Complete (suc (suc (suc (suc x)))) y hx hy = absurd (omega arith)

abbrev zeros : Tiles
zeros = record { local_source = λ x y i j. 0; local_dest = λ x y i j. 0 }

printed-transposed_example :
    printed 4 (0, 0) (transposed rising rising zeros)
    ≡ 0xcab1 ∷ outputs 8 (λ i. outputs 12 (λ j. (i * 65536 + j) ∷ []))
printed-transposed_example =
    printed-transposed 4 rising rising zeros 0 0 (omega arith) rising-Complete rising-Complete

announced_zero : announced 4 (0, 0) ≡ 0xcab0 ∷ []
unfolding announced no_cgbp_rtl.Manycore.x_y_to_id
announced_zero = refl
