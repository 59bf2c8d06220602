-- ===== src/Kernel/Tests/Codec/Parts.antt =====
-- Formats of numbers, texts, pairs, options and lists, for the tests.
use mistake_agent.Prelude.{
  ℕ, ◌+◌, ◌-◌, ◌≤◌, ◌≡◌, zero, suc, refl, Option, none, some, List, [], ◌∷◌, ◌==◌, arith,
  if◌then◌else◌, All, ap, length, false,
}
use mistake_agent.Relay.Text.{Text}

abbrev IsPrintable : Text → Type 0
IsPrintable = All (λ c. 32 ≤ c)

-- A writer in front of a text, and a reader that gives the value and the text behind it.
pub record Codec (A : Type 0) : Type 0 where
  pub write : A → Text → Text
  pub read : Text → Option (A × Text)
  pub back : (a : A) (t : Text) → read (write a t) ≡ some (a, t)
  pub printable : (a : A) (t : Text) → IsPrintable t → IsPrintable (write a t)

abbrev nat_read : Text → Option (ℕ × Text)
nat_read [] = none
nat_read (c ∷ t) = some (c - 32, t)

pub nat_codec : Codec ℕ
nat_codec = record {
  write = λ n t. (n + 32) ∷ t;
  read = nat_read;
  back = λ n t. ap (λ m. some (m, t)) (omega arith);
  printable = λ n t h. (omega arith, h);
}

abbrev text_write : Text → Text → Text
text_write [] t = 32 ∷ t
text_write (c ∷ cs) t = (c + 33) ∷ text_write cs t

abbrev push_char : ℕ → Option (Text × Text) → Option (Text × Text)
push_char c none = none
push_char c (some (cs, t)) = some (c ∷ cs, t)

abbrev text_read : Text → Option (Text × Text)
text_read [] = none
text_read (c ∷ t) =
    let rest = text_read t in if c == 32 then some ([], t) else push_char (c - 33) rest

not_end : (c : ℕ) → ((c + 33) == 32) ≡ false
not_end c = ground arith

text_back : (cs t : Text) → text_read (text_write cs t) ≡ some (cs, t)
text_back [] t = refl
text_back (c ∷ cs) t = rw (not_end c, text_back cs t) (ap (λ d. some (d ∷ cs, t)) (omega arith))

text-IsPrintable : (cs t : Text) → IsPrintable t → IsPrintable (text_write cs t)
text-IsPrintable [] t h = (omega arith, h)
text-IsPrintable (c ∷ cs) t h = (omega arith, text-IsPrintable cs t h)

pub text_codec : Codec Text
text_codec = record {
  write = text_write;
  read = text_read;
  back = text_back;
  printable = text-IsPrintable;
}

module _ {A B : Type 0} where
  abbrev then_read : Codec B → Option (A × Text) → Option ((A × B) × Text)
  then_read D none = none
  then_read D (some (a, t)) = with_first a (D.read t)
    where
      with_first : A → Option (B × Text) → Option ((A × B) × Text)
      with_first a none = none
      with_first a (some (b, t)) = some ((a, b), t)

  pub pair_codec : Codec A → Codec B → Codec (A × B)
  pair_codec C D = record {
    write = λ p t. C.write p.0 (D.write p.1 t);
    read = λ t. then_read D (C.read t);
    back = λ p t. rw (C.back p.0 (D.write p.1 t), D.back p.1 t) refl;
    printable = λ p t h. C.printable p.0 (D.write p.1 t) (D.printable p.1 t h);
  }

  abbrev read_as : (A → B) → Option (A × Text) → Option (B × Text)
  read_as f none = none
  read_as f (some (a, t)) = some (f a, t)

  -- A type whose values are written as those of another.
  pub via_codec : (f : A → B) (g : B → A) → ((b : B) → f (g b) ≡ b) → Codec A → Codec B
  via_codec f g h C = record {
    write = λ b t. C.write (g b) t;
    read = λ t. read_as f (C.read t);
    back = λ b t. rw (C.back (g b) t) (ap (λ c. some (c, t)) (h b));
    printable = λ b t p. C.printable (g b) t p;
  }

module _ {A : Type 0} where
  abbrev option_write : Codec A → Option A → Text → Text
  option_write C none t = 32 ∷ t
  option_write C (some a) t = 33 ∷ C.write a t

  abbrev read_some : Option (A × Text) → Option (Option A × Text)
  read_some none = none
  read_some (some (a, t)) = some (some a, t)

  abbrev option_read : Codec A → Text → Option (Option A × Text)
  option_read C [] = none
  option_read C (c ∷ t) = if c == 32 then some (none, t) else read_some (C.read t)

  option_back :
      (C : Codec A) (o : Option A) (t : Text) → option_read C (option_write C o t) ≡ some (o, t)
  option_back C none t = refl
  option_back C (some a) t = rw (C.back a t) refl

  option-IsPrintable :
      (C : Codec A) (o : Option A) (t : Text) → IsPrintable t → IsPrintable (option_write C o t)
  option-IsPrintable C none t h = (omega arith, h)
  option-IsPrintable C (some a) t h = (omega arith, C.printable a t h)

  pub option_codec : Codec A → Codec (Option A)
  option_codec C = record {
    write = option_write C;
    read = option_read C;
    back = option_back C;
    printable = option-IsPrintable C;
  }

  -- So many values one after the other, with their number in front.
  abbrev write_each : Codec A → List A → Text → Text
  write_each C [] t = t
  write_each C (a ∷ xs) t = C.write a (write_each C xs t)

  abbrev read_next : (Text → Option (List A × Text)) → Option (A × Text) → Option (List A × Text)
  read_next rest none = none
  read_next rest (some (a, t)) = add (rest t)
    where
      add : Option (List A × Text) → Option (List A × Text)
      add none = none
      add (some (xs, u)) = some (a ∷ xs, u)

  abbrev read_each : Codec A → ℕ → Text → Option (List A × Text)
  read_each C zero t = some ([], t)
  read_each C (suc n) t = read_next (read_each C n) (C.read t)

  read_each-write :
      (C : Codec A) (xs : List A) (t : Text)
      → read_each C (length xs) (write_each C xs t) ≡ some (xs, t)
  read_each-write C [] t = refl
  read_each-write C (a ∷ xs) t = rw (C.back a (write_each C xs t), read_each-write C xs t) refl

  write_each-IsPrintable :
      (C : Codec A) (xs : List A) (t : Text) → IsPrintable t → IsPrintable (write_each C xs t)
  write_each-IsPrintable C [] t h = h
  write_each-IsPrintable C (a ∷ xs) t h =
      C.printable a (write_each C xs t) (write_each-IsPrintable C xs t h)

  abbrev list_read : Codec A → Option (ℕ × Text) → Option (List A × Text)
  list_read C none = none
  list_read C (some (n, t)) = read_each C n t

  pub list_codec : Codec A → Codec (List A)
  list_codec C = record {
    write = λ xs t. nat_codec.write (length xs) (write_each C xs t);
    read = λ t. list_read C (nat_codec.read t);
    back = λ xs t. rw (nat_codec.back (length xs) (write_each C xs t)) (read_each-write C xs t);
    printable = λ xs t h.
        nat_codec.printable (length xs) (write_each C xs t) (write_each-IsPrintable C xs t h);
  }
