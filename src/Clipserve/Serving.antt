-- ===== src/Clipserve/Serving.antt =====
-- What src/clipserve.c answers while it serves a stored clip.
use clipmenu.Prelude.{
  ℕ, ◌+◌, ◌-◌, ◌%◌, ◌^◌, ◌<◌, ◌≡◌, refl, ap, ◌∙◌, ◌≢◌, ◌⊎◌, inl, inr, false, none, some, List, [],
  ◌∷◌, ◌++◌, append_assoc, append-nil, arith, ◌==◌, ==_iff, Bool-cases, length, take_all,
}
use clipmenu.Text.{Bytes, djb64_hash}
use clipmenu.Text.Hash.{djb64_hash-lt}
use clipmenu.Machine.{SnipFile, ClipStore, ok}
use clipmenu.Machine.Calls.{munmap, munmap_content}
use clipmenu.Store.State.{Dir, sys}
use clipmenu.Store.Lock.{drop_cs_destroy}
use clipmenu.Store.Content.{CsContent, drop_cs_content_unmap}
use clipmenu.Store.Clips.{Represents}
use clipmenu.Store.Clips.Shelves.{content_read}
use clipmenu.Store.Clips.Start.{destroyed, cs_init_reopen}
use clipmenu.Util.{uint64_to_str, str_to_uint64}
use clipmenu.Util.Decimal.{str_to_uint64-uint64_to_str}
use clipmenu.Clipserve.{
  Targets, ServeEvent, selection_request, selection_clear, other, Answer, answer, text_items,
  xa_atom, xa_string, serve_loop, serve_clipboard, main,
}

-- How often a selection was taken over.
abbrev pub clears : List ServeEvent → ℕ
clears [] = 0
clears (selection_request requestor target property ∷ evts) = clears evts
clears (selection_clear ∷ evts) = clears evts + 1
clears (other ∷ evts) = clears evts

-- The answer to a request, for each of its targets: the list of the targets, the whole text, or none.
abbrev pub Answered : Targets → Bytes → ℕ → ℕ → ℕ → Answer → Type 0
Answered atoms t requestor target property a =
    ((target ≡ atoms.targets)
      × (a ≡ record {
        requestor = requestor;
        changed = some (property, xa_atom, atoms.utf8_string ∷ xa_string ∷ []);
        property = some property;
      }))
    ⊎ ((target ≢ atoms.targets)
        × ((target ≡ atoms.utf8_string) ⊎ (target ≡ xa_string))
        × (a ≡ record {
          requestor = requestor;
          changed = some (property, target, t);
          property = some property;
        }))
    ⊎ ((target ≢ atoms.targets)
        × (target ≢ atoms.utf8_string)
        × (target ≢ xa_string)
        × (a ≡ record { requestor = requestor; changed = none; property = none }))

-- One answer for each request among these events, in their order.
abbrev pub Replies : Targets → Bytes → List ServeEvent → List Answer → Type 0
Replies atoms t [] [] = Unit
Replies atoms t [] (a ∷ out) = ⊥
Replies atoms t (selection_request requestor target property ∷ evts) [] = ⊥
Replies atoms t (selection_request requestor target property ∷ evts) (a ∷ out) =
    Answered atoms t requestor target property a × Replies atoms t evts out
Replies atoms t (selection_clear ∷ evts) out = Replies atoms t evts out
Replies atoms t (other ∷ evts) out = Replies atoms t evts out

differs : (a b : ℕ) → (a == b) ≡ false → a ≢ b
differs a b e same = absurd (ground (arith, same, e))

-- The answers to all the requests among these events.
abbrev pub answers : Targets → CsContent → List ServeEvent → List Answer
answers atoms content [] = []
answers atoms content (selection_request requestor target property ∷ evts) =
    answer atoms content requestor target property ∷ answers atoms content evts
answers atoms content (selection_clear ∷ evts) = answers atoms content evts
answers atoms content (other ∷ evts) = answers atoms content evts

module _ (atoms : Targets) (content : CsContent) (later : List ServeEvent) where
  serve_until :
      (evts : List ServeEvent) (remaining : ℕ) (out : List Answer)
      → remaining ≡ clears evts + 1
      → serve_loop atoms content remaining (evts ++ (selection_clear ∷ later)) out
        ≡ some (out ++ answers atoms content evts, later)
  unfolding serve_loop
  serve_until [] remaining out e = ground (arith, append-nil out)
  serve_until (selection_request requestor target property ∷ evts) remaining out e =
      let a = answer atoms content requestor target property in
      serve_until evts remaining (out ++ (a ∷ [])) e
      ∙ ap (λ l. some (l, later)) (append_assoc out (a ∷ []) (answers atoms content evts))
  serve_until (selection_clear ∷ evts) remaining out e =
      ground (arith, serve_until evts (remaining - 1) out)
  serve_until (other ∷ evts) remaining out e = serve_until evts remaining out e

module _ (atoms : Targets) (t : Bytes) (short : length t < 2 ^ 31) where
  abbrev whole : CsContent
  whole = record { bytes = t; size = length t }

  text_items-whole : text_items whole ≡ t
  text_items-whole = take_all (length t % 2 ^ 32) t (omega (arith, short))

  answer-Answered :
      (requestor target property : ℕ)
      → Answered atoms t requestor target property (answer atoms whole requestor target property)
  unfolding answer
  answer-Answered requestor target property = elim (Bool-cases (target == atoms.targets)) [
    | inl e ↦ inl ((==_iff _ _).0 e, rw e refl)
    | inr e ↦ elim (Bool-cases (target == atoms.utf8_string)) [
      | inl e' ↦
          inr (inl (differs _ _ e, inl ((==_iff _ _).0 e'), rw (e, e', text_items-whole) refl))
      | inr e' ↦ elim (Bool-cases (target == xa_string)) [
        | inl e'' ↦
            inr (
              inl (differs _ _ e, inr ((==_iff _ _).0 e''), rw (e, e', e'', text_items-whole) refl))
        | inr e'' ↦ inr (inr (differs _ _ e, differs _ _ e', differs _ _ e'', rw (e, e', e'') refl))
      ]
    ]
  ]

  answers-Replies : (evts : List ServeEvent) → Replies atoms t evts (answers atoms whole evts)
  answers-Replies [] = tt
  answers-Replies (selection_request requestor target property ∷ evts) =
      (answer-Answered requestor target property, answers-Replies evts)
  answers-Replies (selection_clear ∷ evts) = answers-Replies evts
  answers-Replies (other ∷ evts) = answers-Replies evts

module _ (snip_fd content_dir_fd : ℕ) (atoms : Targets) where
  -- Called with the hash of a stored text that is not empty and shorter than 2 ^ 31, clipserve
  -- answers each request until its second selection is taken over, and there it ends: a request for
  -- TARGETS with UTF8_STRING and STRING, a request for one of these with the whole text, and any other
  -- with None. The store stays as it is.
  pub main_serves :
      (pre post : List Bytes) (t : Bytes) (evts later : List ServeEvent) (f : SnipFile) (d : Dir)
      (c : ClipStore)
      → Represents (pre ++ (t ∷ post)) f d
      → t ≢ []
      → length t < 2 ^ 31
      → clears evts ≡ 1
      → (out : List Answer) × (c' : ClipStore) × (main snip_fd content_dir_fd atoms
            (uint64_to_str (djb64_hash t))
            (evts ++ (selection_clear ∷ later))
            (sys f d false c)
          ≡ (ok (some (out, later)), sys f d false c'))
        × Replies atoms t evts out
  unfolding main drop_cs_destroy munmap serve_clipboard drop_cs_content_unmap munmap_content
  main_serves pre post t evts later f d c r ne short once =
      let (c₁, started, idle) = cs_init_reopen snip_fd content_dir_fd f d c (pre ++ (t ∷ post)) r in
      let number : str_to_uint64 (uint64_to_str (djb64_hash t)) ≡ ok (djb64_hash t) =
        str_to_uint64-uint64_to_str (djb64_hash t) (djb64_hash-lt t) 0 in
      let served =
        serve_until atoms (record { bytes = t; size = length t }) later evts 2 []
          (omega (arith, once)) in
      (
        answers atoms (record { bytes = t; size = length t }) evts,
        destroyed c₁,
        rw (number, started, content_read pre post t d f false c₁ r.shelved ne, served) refl,
        answers-Replies atoms t short evts,
      )
