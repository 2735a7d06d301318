-- ===== src/Logger/Written.antt =====
-- Nothing that was logged is lost on the way to the file.
use mathlib.Core.List.{flatten, append-nil, append_assoc}
use mathlib.Core.Path.{subst}
use trading_system.Prelude.{ℕ, ◌<◌, ◌≡◌, refl, sym, ap, ◌∙◌, List, [], ◌∷◌, ◌++◌, ok-injective}
use trading_system.SpscQueue.Refine.{IsValid, contents, contents-push, new_queue-IsValid}
use trading_system.SpscQueue.Reading.{update_next_read-seen}
use trading_system.Logger.{Logger, new_logger, Step, skip, push_val, flush, Reach, start, later}

flatten-append : (xs ys : List (List ℕ)) → flatten (xs ++ ys) ≡ flatten xs ++ flatten ys
unfolding flatten
flatten-append [] ys = refl
flatten-append (x ∷ xs) ys = ap (λ t. x ++ t) (flatten-append xs ys) ∙ sym (append_assoc x _ _)

flatten-push :
    (xs ps : List (List ℕ)) (s : List ℕ)
    → flatten (xs ++ (s ∷ [])) ++ flatten ps ≡ flatten xs ++ flatten (s ∷ ps)
unfolding flatten
flatten-push xs ps s =
    ap (λ t. t ++ flatten ps) (flatten-append xs (s ∷ []))
    ∙ append_assoc (flatten xs) (s ++ []) (flatten ps)
    ∙ ap (λ t. flatten xs ++ (t ++ flatten ps)) (append-nil s)

flatten-flush :
    (file s : List ℕ) (xs ps : List (List ℕ))
    → (file ++ s) ++ (flatten xs ++ flatten ps) ≡ file ++ (flatten (s ∷ xs) ++ flatten ps)
unfolding flatten
flatten-flush file s xs ps =
    append_assoc file s _ ∙ ap (λ t. file ++ t) (sym (append_assoc s (flatten xs) (flatten ps)))

-- Where the text is: in the file, in the queue, and with the logging thread.
abbrev pub text_of : Logger → List ℕ
text_of l = l.file ++ (flatten (contents l.logger_queue) ++ flatten l.pending)

pub record Keeps (text : List ℕ) (l : Logger) : Type 0 where
  pub valid : IsValid l.logger_queue
  pub whole : text_of l ≡ text

Step-Keeps : {text : List ℕ} {l m : Logger} → Step l m → Keeps text l → Keeps text m
unfolding flatten
Step-Keeps {l} (skip {ps} e) k = record {
  valid = k.valid;
  whole = ap (λ p. l.file ++ (flatten (contents l.logger_queue) ++ flatten p)) (sym e) ∙ k.whole;
}
Step-Keeps {l} (push_val {s} {ps} e some_text room) k =
    let (w, same) = contents-push l.logger_queue s k.valid room in
    record {
      valid = w;
      whole =
          ap (λ c. l.file ++ (flatten c ++ flatten ps)) same
          ∙ ap (λ t. l.file ++ t) (flatten-push (contents l.logger_queue) ps s)
          ∙ ap (λ p. l.file ++ (flatten (contents l.logger_queue) ++ flatten p)) (sym e)
          ∙ k.whole;
    }
Step-Keeps {l} (flush {s} {q} seen released) k =
    let (r, e, w, split) = update_next_read-seen l.logger_queue s k.valid seen in
    let same : r ≡ q = ok-injective (sym e ∙ released) in
    record {
      valid = subst IsValid same w;
      whole =
          ap (λ x. (l.file ++ s) ++ (flatten (contents x) ++ flatten l.pending)) (sym same)
          ∙ flatten-flush l.file s (contents r) l.pending
          ∙ ap (λ c. l.file ++ (flatten c ++ flatten l.pending)) (sym split)
          ∙ k.whole;
    }

-- However the two threads take turns: the file, the queue and what is still to be pushed make up, in
-- this order, exactly the text that was logged.
pub Reach-Keeps :
    (capacity : ℕ) (strings : List (List ℕ)) (l : Logger)
    → 0 < capacity
    → Reach (new_logger capacity strings) l
    → Keeps (flatten strings) l
unfolding new_logger flatten
Reach-Keeps capacity strings l h start =
    let (w, nil) = new_queue-IsValid [] capacity h in record { valid = w; whole = rw nil refl }
Reach-Keeps capacity strings l h (later r st) = Step-Keeps st (Reach-Keeps capacity strings _ h r)
