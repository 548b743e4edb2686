-- ===== src/FileServer/Help/Topics.antt =====
-- Each topic that a request may name has its own text.
use cse344system_programming.Prelude.{
  ℕ, ◌≡◌, refl, sym, subst, true, List, [], ◌∷◌, All, length, take, str_eq, strcmp, str_eq_iff,
  Bool-cases, inl, inr, arith,
}
use cse344system_programming.FileServer.Requests.{help_topics, mem_text}
use cse344system_programming.FileServer.Help.{help_text}

All-mem_text :
    (P : List ℕ → Type 0) (t : List ℕ) (xs : List (List ℕ)) → All P xs → mem_text t xs ≡ true → P t
unfolding mem_text
All-mem_text P t [] all h = absurd (ground arith)
All-mem_text P t (x ∷ xs) (p, all) h = elim (Bool-cases (str_eq t x)) [
  | inl e ↦ subst P (sym ((str_eq_iff t x).0 e)) p
  | inr e ↦ All-mem_text P t xs all (rw e at h)
]

-- What the text for a topic starts with.
abbrev pub Describes : List ℕ → Type 0
Describes t = take (length t) (help_text t) ≡ t

help_topics-Describes : All Describes help_topics
unfolding help_text str_eq strcmp
help_topics-Describes = (refl, (refl, (refl, (refl, (refl, (refl, (refl, (refl, (refl, tt)))))))))

-- The text for a topic that the `help` request accepts starts with the topic's name.
help_text_of_topic :
    (t : List ℕ) → mem_text t help_topics ≡ true → take (length t) (help_text t) ≡ t
help_text_of_topic t h = All-mem_text Describes t help_topics help_topics-Describes h
