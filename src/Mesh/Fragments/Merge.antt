-- ===== src/Mesh/Fragments/Merge.antt =====
-- Fragments that are taken over.
use bit_chat_pi.Prelude.{[], append-nil, append_assoc, subst, sym, ◌++◌, ◌∙◌, ◌∷◌, ◌≡◌, nat_eq}
use bit_chat_pi.Dict.{set}
use bit_chat_pi.Dict.Keys.{IsDict, set-IsDict}
use bit_chat_pi.Dict.News.{Fresh-front, set_new}
use bit_chat_pi.Mesh.Fragments.Manager.{Fragments, merge}

merge_apart : (d e : Fragments) → IsDict (d ++ e) → merge d e ≡ d ++ e
merge_apart d [] h = sym (append-nil d)
merge_apart d ((i, xs) ∷ e) h =
    let one : Fragments = (i, xs) ∷ [] in
    let moved : (d ++ one) ++ e ≡ d ++ ((i, xs) ∷ e) = append_assoc d one e in
    rw (set_new i xs d (Fresh-front i xs d e h))
      (merge_apart (d ++ one) e (subst (λ f. IsDict f) (sym moved) h) ∙ moved)

-- An empty dictionary takes over the other as it is.
pub merge-nil : (e : Fragments) → IsDict e → merge [] e ≡ e
merge-nil e h = merge_apart [] e h

pub merge-IsDict : (d e : Fragments) → IsDict d → IsDict (merge d e)
merge-IsDict d [] h = h
merge-IsDict d ((i, xs) ∷ e) h = merge-IsDict (set i xs d) e (set-IsDict i xs d h)
