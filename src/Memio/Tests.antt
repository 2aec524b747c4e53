-- ===== src/Memio/Tests.antt =====
-- A memory endpoint of four bytes, and the theorems at it.
use sp25_ece391_group.Base.{◌≡◌, refl, some, [], ◌∷◌, pos, negsuc, ok, err, einval, arith}
use sp25_ece391_group.Memio.{Memio, readat, writeat, cntl}
use sp25_ece391_group.Memio.Laws.{IsMemio, Wrote, writeat-Wrote, readat-writeat}

abbrev four : Memio
four = record { buf = 1 ∷ 2 ∷ 3 ∷ 4 ∷ []; size = 4 }

four-IsMemio : IsMemio four
four-IsMemio = record { whole = refl; nonempty = omega arith }

writeat_clamps :
    writeat four 2 (some (7 ∷ 8 ∷ 9 ∷ [])) ≡ (ok 2, record { buf = 1 ∷ 2 ∷ 7 ∷ 8 ∷ []; size = 4 })
unfolding writeat
writeat_clamps = refl

writeat_past_end : writeat four 4 (some (7 ∷ [])) ≡ (err einval, four)
unfolding writeat
writeat_past_end = refl

readat_past_end : (readat four 9 (pos 2) ≡ ok []) × (readat four 0 (negsuc 0) ≡ err einval)
unfolding readat
readat_past_end = (refl, refl)

getend_works : cntl four 2 (some 0) ≡ (ok 0, some 4)
unfolding cntl
getend_works = refl

writeat-Wrote_example :
    let (r, m') = writeat four 2 (some (7 ∷ 8 ∷ 9 ∷ [])) in Wrote four 2 (7 ∷ 8 ∷ 9 ∷ []) r m'
writeat-Wrote_example = writeat-Wrote four 2 (7 ∷ 8 ∷ 9 ∷ []) four-IsMemio (omega arith)

readat-writeat_example :
    readat (writeat four 2 (some (7 ∷ 8 ∷ 9 ∷ []))).1 2 (pos 3) ≡ ok (7 ∷ 8 ∷ [])
readat-writeat_example = readat-writeat four 2 (7 ∷ 8 ∷ 9 ∷ []) four-IsMemio (omega arith)
