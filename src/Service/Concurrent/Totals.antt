-- ===== src/Service/Concurrent/Totals.antt =====
-- Quantities that each write (service.py) adds to, whatever the state: what a list of writes adds is
-- the sum of what they add, in whichever order they come.
use deskfleet_ticketwarden.Base.{ℕ, ◌+◌, ◌≡◌, refl, List, [], ◌∷◌, ◌++◌, map, arith}
use deskfleet_ticketwarden.Platform.{Platform}
use deskfleet_ticketwarden.Service.Effects.{World}
use deskfleet_ticketwarden.Service.Concurrent.{Write, perform, perform_all}
use deskfleet_ticketwarden.Service.Concurrent.Interleaving.{
  done, none_left, right, left, one_more, Interleaves, Merges,
}

unfoldable pub total : (Write → ℕ) → List Write → ℕ
total weight [] = 0
total weight (x ∷ xs) = weight x + total weight xs

unfoldable pub grand_total : (Write → ℕ) → List (List Write) → ℕ
grand_total weight [] = 0
grand_total weight (xs ∷ threads) = total weight xs + grand_total weight threads

module _ (weight : Write → ℕ) where
  pub total-append :
      (xs ys : List Write) → total weight (xs ++ ys) ≡ total weight xs + total weight ys
  unfolding total
  total-append [] ys = omega arith
  total-append (x ∷ xs) ys = omega (arith, total-append xs ys)

  total-Interleaves :
      {xs ys zs : List Write}
      → Interleaves xs ys zs
      → total weight zs ≡ total weight xs + total weight ys
  unfolding total
  total-Interleaves done = refl
  total-Interleaves (left way) = omega (arith, total-Interleaves way)
  total-Interleaves (right way) = omega (arith, total-Interleaves way)

  pub total-Merges :
      {threads : List (List Write)} {zs : List Write}
      → Merges threads zs
      → total weight zs ≡ grand_total weight threads
  unfolding grand_total total
  total-Merges none_left = refl
  total-Merges (one_more others way) = omega (arith, total-Interleaves way, total-Merges others)

  pub perform_all-total :
      (P : Platform) (quantity : World → ℕ)
      → ((x : Write) (w : World) → quantity (perform P x w) ≡ quantity w + weight x)
      → (xs : List Write) (w : World) → quantity (perform_all P xs w) ≡ quantity w + total weight xs
  unfolding perform_all total
  perform_all-total P quantity step [] w = omega arith
  perform_all-total P quantity step (x ∷ xs) w =
      omega (arith, perform_all-total P quantity step xs (perform P x w), step x w)

pub grand_total-same :
    {A : Type 0} (f g : Write → ℕ) (of : A → List Write)
    → ((a : A) → total f (of a) ≡ total g (of a))
    → (xs : List A) → grand_total f (map of xs) ≡ grand_total g (map of xs)
unfolding grand_total
grand_total-same f g of same [] = refl
grand_total-same f g of same (x ∷ xs) = omega (arith, same x, grand_total-same f g of same xs)
