-- ===== src/Clipserve.antt =====
-- clipserve, src/clipserve.c: it reads a clip by its hash and answers the requests of other programs
-- for it until every selection that it owns has been taken over. The X server is a list of events.
pub mod Serving
pub mod Handover
pub mod Tests
use clipmenu.Prelude.{
  ℕ, zero, suc, ◌+◌, ◌-◌, ◌*◌, ◌/◌, ◌%◌, ◌^◌, ◌≤◌, ◌<◌, bit_and, ◌≡◌, refl, sym, ap, ◌∙◌, subst,
  fun_ext, ◌≡⟨◌⟩◌, ◌∎, ◌≢◌, ◌↔◌, ◌⊎◌, inl, inr, Bool, true, false, not, ◌&&◌, ◌||◌, Option, none,
  some, List, [], ◌∷◌, ◌++◌, map, append_assoc, append-nil, map-append, reverse, reverse-append,
  reverse-reverse, reverse-cons, arith, ltb, leb, ◌==◌, if◌then◌else◌, ltb→lt, not-ltb→le,
  not-leb→lt, lt→ltb, le→not-ltb, le→leb, leb→le, lt→not-leb, ==_iff, ==_refl, Bool-cases, length,
  get_or, set, take, drop, replicate, length-append, get_or-append, set-append, take-append,
  take-append_le, take_all, take-append-drop, take-take, take-set_last, take-set, get_or-take,
  length-take_le, length-take_of_le, length-set, length-replicate, split_at, All, All-append,
  length-map, take-map, length-reverse, String,
}
use clipmenu.Text.{Bytes}
use clipmenu.Machine.{Sys, Outcome, ok, err, abort, M, ◌>>=◌, ◌>>◌, pure, expect_ok}
use clipmenu.Store.Lock.{cs_init, drop_cs_destroy}
use clipmenu.Store.Content.{CsContent, cs_content_get, drop_cs_content_unmap}
use clipmenu.Util.{str_to_uint64}

-- The atoms that XInternAtom() gives, and XA_ATOM and XA_STRING.
pub record Targets : Type 0 where
  pub targets : ℕ
  pub utf8_string : ℕ

abbrev pub xa_atom : ℕ
xa_atom = 4

abbrev pub xa_string : ℕ
xa_string = 31

pub data ServeEvent : Type 0 where
  selection_request : ℕ → ℕ → ℕ → ServeEvent
  selection_clear : ServeEvent
  other : ServeEvent

-- What the requestor gets: a property with a type and its items, and the property that is named in
-- the answer, `none` for None.
pub record Answer : Type 0 where
  pub requestor : ℕ
  pub changed : Option (ℕ × ℕ × List ℕ)
  pub property : Option ℕ

-- (int)content->size items of the content, as XChangeProperty() takes them.
abbrev pub text_items : CsContent → List ℕ
text_items content = take (content.size % 2 ^ 32) content.bytes

-- A SelectionRequest with its requestor, target and property.
unfoldable pub answer : Targets → CsContent → ℕ → ℕ → ℕ → Answer
answer atoms content requestor target property =
    if target == atoms.targets
    then record {
      requestor = requestor;
      changed = some (property, xa_atom, atoms.utf8_string ∷ xa_string ∷ []);
      property = some property;
    }
    else if target == atoms.utf8_string || target == xa_string
    then record {
      requestor = requestor;
      changed = some (property, target, text_items content);
      property = some property;
    }
    else record { requestor = requestor; changed = none; property = none }

-- The loop, until `remaining_selections` is 0: the answers, and the events that are left; `none` is a
-- loop that still waits for an event.
unfoldable pub serve_loop :
    Targets → CsContent → ℕ → List ServeEvent → List Answer → Option (List Answer × List ServeEvent)
unfolding answer
serve_loop atoms content remaining [] out = none
serve_loop atoms content remaining (selection_request requestor target property ∷ evts) out =
    serve_loop atoms content remaining evts
      (out ++ (answer atoms content requestor target property ∷ []))
serve_loop atoms content remaining (selection_clear ∷ evts) out =
    let rest = serve_loop atoms content (remaining - 1) evts out in
    if remaining - 1 == 0 then some (out, evts) else rest
serve_loop atoms content remaining (other ∷ evts) out = serve_loop atoms content remaining evts out

-- It owns PRIMARY and CLIPBOARD.
abbrev pub nr_selections : ℕ
nr_selections = 2

unfoldable pub serve_clipboard :
    Targets → CsContent → List ServeEvent → Option (List Answer × List ServeEvent)
unfolding serve_loop
serve_clipboard atoms content evts = serve_loop atoms content nr_selections evts []

-- What the end of the scope gives back, where the loop has ended.
abbrev pub finish :
    CsContent → Option (List Answer × List ServeEvent) → M (Option (List Answer × List ServeEvent))
finish content none = pure none
finish content (some served) = do
  drop_cs_content_unmap (some content)
  drop_cs_destroy
  pure (some served)

module _ (snip_fd content_dir_fd : ℕ) (atoms : Targets) where
  abbrev run : Outcome ℕ → List ServeEvent → M (Option (List Answer × List ServeEvent))
  run (err e) evts s = (abort, s)
  run abort evts s = (abort, s)
  run (ok hash) evts s =
      (do
        expect_ok (cs_init snip_fd content_dir_fd)
        content ← expect_ok (cs_content_get hash)
        finish content (serve_clipboard atoms content evts))
        s

  -- main() with its argument.
  unfoldable pub main : Bytes → List ServeEvent → M (Option (List Answer × List ServeEvent))
  main argument evts = run (str_to_uint64 argument) evts
