-- ===== src/Pipe/Window.antt =====
-- The bytes that the page of a pipe holds, from a position on.
use sp25_ece391_group.Base.{
  ℕ, zero, suc, ◌+◌, ◌-◌, ◌%◌, ◌^◌, ◌<◌, ◌≡◌, refl, ap, ap₂, ◌∙◌, false, List, [], ◌∷◌, ◌++◌, ◌==◌,
  arith,
}
use sp25_ece391_group.Pipe.{Pipe, page_size, size, store}

-- The `n` bytes of the page from the position `h` on.
abbrev pub window : (ℕ → ℕ) → ℕ → ℕ → List ℕ
window page h zero = []
window page h (suc n) = page (h % page_size) ∷ window page (h + 1) n

-- How many bytes a pipe holds, by its positions, and these bytes, the oldest first.
abbrev pub used : Pipe → ℕ
used p = size (p.tail + 2 ^ 64 - p.head)

abbrev pub contents : Pipe → List ℕ
contents p = window p.buffer p.head (used p)

-- A window depends on the place in the page only.
pub window_place :
    (page : ℕ → ℕ) (h k n : ℕ) → h % page_size ≡ k % page_size → window page h n ≡ window page k n
window_place page h k zero e = refl
window_place page h k (suc n) e =
    ap₂ ◌∷◌ (ap page e) (window_place page (h + 1) (k + 1) n (omega arith))

pub size_place : (n : ℕ) → size n % page_size ≡ n % page_size
size_place n = omega arith

pub window_snoc :
    (page : ℕ → ℕ) (h n : ℕ)
    → window page h n ++ (page ((h + n) % page_size) ∷ []) ≡ window page h (suc n)
window_snoc page h zero = let e : h + 0 ≡ h = omega arith in ap (λ k. page (k % page_size) ∷ []) e
window_snoc page h (suc n) =
    let e : h + suc n ≡ h + 1 + n = omega arith in
    ap (λ l. page (h % page_size) ∷ l)
      (ap (λ k. window page (h + 1) n ++ (page (k % page_size) ∷ [])) e
        ∙ window_snoc page (h + 1) n)

pub window-store :
    (page : ℕ → ℕ) (c i h n : ℕ)
    → i ≡ (h + n) % page_size
    → n < page_size
    → window (store page i c) h n ≡ window page h n
window-store page c i h zero e small = refl
window-store page c i h (suc n) e small =
    let ne : (h % page_size == i) ≡ false = ground arith in
    ap₂ ◌∷◌ (rw ne refl) (window-store page c i (h + 1) n (omega arith) (omega arith))
