-- ===== src/Console/Submission.antt =====
-- What the forms of the examples queue (`render_active_example_form`).
use text.Mathlib.TextLemmas.{cons-append}
use deskfleet_ticketwarden.Platform.{strip}
use deskfleet_ticketwarden.Unicode.{Database}
use deskfleet_ticketwarden.Base.{
  arith, ◌<>◌, none, [], false, ◌∷◌, some, is_empty, true, String, Option, Bool, ◌≡◌, List, not,
  all, Bool-cases, inl, inr, ◌⊎◌, refl,
}
use deskfleet_ticketwarden.Console.{Example}
use deskfleet_ticketwarden.Console.Forms.{FormInput, submission, blank}

-- The fields that the form of an example wants.
abbrev pub required : FormInput → Example → List String
required f Example.order_status = f.order_id ∷ []
required f Example.refund_request = f.order_id ∷ []
required f Example.product_question = f.product ∷ f.question ∷ []
required f Example.out_of_scope = f.complaint ∷ []
required f Example.injection_attempt = f.payload ∷ []

is_empty-append : (s t : String) → is_empty s ≡ false → is_empty (s <> t) ≡ false
is_empty-append String.[] t h = ground arith
is_empty-append (String.◌∷◌ c s) t h = rw (cons-append c s t) refl

module _ (u : Database) (f : FormInput) where
  abbrev pub filled : Example → Bool
  filled e = all (λ s. not (blank u s)) (required f e)

  -- The case names an order, by a text that is not empty, if the form asks for one, and no order
  -- otherwise.
  abbrev pub NamesOrder : Example → Option String → Type 0
  NamesOrder Example.order_status o = (o ≡ some (strip u f.order_id)) × (blank u f.order_id ≡ false)
  NamesOrder Example.refund_request o =
      (o ≡ some (strip u f.order_id)) × (blank u f.order_id ≡ false)
  NamesOrder _ o = o ≡ none

  abbrev Queues : Example → String ⊎ (String × Option String) → Type 0
  Queues e r =
      (text : String) × (order_id : Option String) × (r ≡ inr (text, order_id))
      × (is_empty text ≡ false)
      × NamesOrder e order_id

  abbrev Warns : String ⊎ (String × Option String) → Type 0
  Warns r = (warning : String) × (r ≡ inl warning)

  -- A form that is sent queues a case if none of the fields that it wants is blank, and shows a
  -- warning otherwise. The text of the case is not empty, and the case names the order that was
  -- typed, without the blanks around it, exactly if the form asks for an order.
  pub submission_lem :
      (e : Example)
      → ((filled e ≡ true) × Queues e (submission u f e))
        ⊎ ((filled e ≡ false) × Warns (submission u f e))
  unfolding submission blank
  submission_lem Example.order_status = elim (Bool-cases (is_empty (strip u f.order_id))) [
    | inl h ↦ inr (rw h (refl, (_, refl)))
    | inr h ↦
        inl (rw h (refl, (_, _, refl, is_empty-append "Where is my order " _ refl, (refl, refl))))
  ]
  submission_lem Example.refund_request = elim (Bool-cases (is_empty (strip u f.order_id))) [
    | inl h ↦ inr (rw h (refl, (_, refl)))
    | inr h ↦ inl (
        rw h
          (refl, (_, _, refl, is_empty-append "I'd like a refund for order " _ refl, (refl, refl))))
  ]
  submission_lem Example.product_question = elim (Bool-cases (is_empty (strip u f.product))) [
    | inl h ↦ inr (rw h (refl, (_, refl)))
    | inr h ↦ elim (Bool-cases (is_empty (strip u f.question))) [
      | inl k ↦ inr (rw (h, k) (refl, (_, refl)))
      | inr k ↦ inl (
          rw (h, k)
            (refl, (_, _, refl, is_empty-append "I have a question about the " _ refl, refl)))
    ]
  ]
  submission_lem Example.out_of_scope = elim (Bool-cases (is_empty (strip u f.complaint))) [
    | inl h ↦ inr (rw h (refl, (_, refl)))
    | inr h ↦ inl (rw h (refl, (_, _, refl, h, refl)))
  ]
  submission_lem Example.injection_attempt = elim (Bool-cases (is_empty (strip u f.payload))) [
    | inl h ↦ inr (rw h (refl, (_, refl)))
    | inr h ↦ inl (rw h (refl, (_, _, refl, h, refl)))
  ]
