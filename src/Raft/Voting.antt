-- ===== src/Raft/Voting.antt =====
-- The votes that a node of internal/raft/raft.go casts, read off the messages that it sends: it votes
-- for itself when it asks for votes, and for another when it grants one.
use geryon.Base.{
  ℕ, ◌≤◌, ◌<◌, ◌≡◌, ◌≢◌, sym, ◌∙◌, ◌⊎◌, inl, inr, true, false, Option, none, some, List, [], ◌∷◌,
  ◌++◌, String, arith, subst,
}
use geryon.Raft.Types.{Message, Body, vote_request, vote_response}

-- The term and the candidate of the vote that a message casts.
unfoldable pub ballot_of : String → Body → Option (ℕ × String)
ballot_of to (vote_request (some r)) = some (r.term, r.candidate_id)
ballot_of to (vote_response (some r)) = elim r.vote_granted [
  | true ↦ some (r.term, to)
  | false ↦ none
]
ballot_of to _ = none

abbrev pub Cast : ℕ → String → List Message → Type 0
Cast t c [] = ⊥
Cast t c (m ∷ ms) = (ballot_of m.receiver m.body ≡ some (t, c)) ⊎ Cast t c ms

Cast-append :
    (t : ℕ) (c : String) (ms : List Message) (m : Message)
    → Cast t c (ms ++ m ∷ [])
    → Cast t c ms ⊎ (ballot_of m.receiver m.body ≡ some (t, c))
Cast-append t c [] m (inl e) = inr e
Cast-append t c [] m (inr h) = elim h [ ]
Cast-append t c (x ∷ ms) m (inl e) = inl (inl e)
Cast-append t c (x ∷ ms) m (inr h) = elim (Cast-append t c ms m h) [
  | inl k ↦ inl (inr k)
  | inr e ↦ inr e
]

-- At term `now`, having voted for `voted`, after sending `out`: no term has two candidates.
pub record OneVote (now : ℕ) (voted : String) (out : List Message) : Type 0 where
  pub named : (t : ℕ) (c : String) → Cast t c out → c ≢ ""
  pub past : (t : ℕ) (c : String) → Cast t c out → t ≤ now
  pub current : (c : String) → Cast now c out → c ≡ voted
  pub unique : (t : ℕ) (c d : String) → Cast t c out → Cast t d out → c ≡ d

pub OneVote-start : (now : ℕ) (voted : String) → OneVote now voted []
OneVote-start now voted = record {
  named = λ t c h. elim h [ ];
  past = λ t c h. elim h [ ];
  current = λ c h. elim h [ ];
  unique = λ t c d h k. elim h [ ];
}

module _ {now : ℕ} {voted : String} {out : List Message} (v : OneVote now voted out) where
  -- A new term may start with any vote.
  pub new_term : (t : ℕ) (c : String) → now < t → OneVote t c out
  new_term t c h = record {
    named = v.named;
    past = λ t' c' k. omega (arith, v.past t' c' k);
    current = λ c' k. absurd (omega (arith, v.past t c' k));
    unique = v.unique;
  }

  -- Within a term, a node that has not voted may.
  pub first_vote : (c : String) → voted ≡ "" → OneVote now c out
  first_vote c h = record {
    named = v.named;
    past = v.past;
    current = λ c' k. absurd (v.named now c' k (v.current c' k ∙ h));
    unique = v.unique;
  }

  pub silent :
      (m : Message) → ballot_of m.receiver m.body ≡ none → OneVote now voted (out ++ m ∷ [])
  silent m h = record {
    named = λ t c k. v.named t c (old t c k);
    past = λ t c k. v.past t c (old t c k);
    current = λ c k. v.current c (old now c k);
    unique = λ t c d k l. v.unique t c d (old t c k) (old t d l);
  }
    where
      old : (t : ℕ) (c : String) → Cast t c (out ++ m ∷ []) → Cast t c out
      old t c k = elim (Cast-append t c out m k) [ inl j ↦ j | inr e ↦ absurd (cc) ]

  -- A message that casts the node's own current vote.
  pub cast :
      (m : Message)
      → voted ≢ ""
      → ballot_of m.receiver m.body ≡ some (now, voted)
      → OneVote now voted (out ++ m ∷ [])
  cast m h b = record {
    named = λ t c k. elim (new t c k) [ inl j ↦ v.named t c j | inr e ↦ rw e.1 h ];
    past = λ t c k. elim (new t c k) [ inl j ↦ v.past t c j | inr e ↦ omega (arith, e.0) ];
    current = λ c k. elim (new now c k) [ inl j ↦ v.current c j | inr e ↦ e.1 ];
    unique = λ t c d k l. both t c d (new t c k) (new t d l);
  }
    where
      new :
          (t : ℕ) (c : String) → Cast t c (out ++ m ∷ []) → Cast t c out ⊎ ((t ≡ now) × (c ≡ voted))
      new t c k = elim (Cast-append t c out m k) [ inl j ↦ inl j | inr e ↦ inr (ground arith) ]

      both :
          (t : ℕ) (c d : String)
          → Cast t c out ⊎ ((t ≡ now) × (c ≡ voted))
          → Cast t d out ⊎ ((t ≡ now) × (d ≡ voted))
          → c ≡ d
      both t c d (inl j) (inl k) = v.unique t c d j k
      both t c d (inl j) (inr (e, f)) = v.current c (subst (λ u. Cast u c out) e j) ∙ sym f
      both t c d (inr (e, f)) (inl k) = f ∙ sym (v.current d (subst (λ u. Cast u d out) e k))
      both t c d (inr (e, f)) (inr (e', f')) = f ∙ sym f'
