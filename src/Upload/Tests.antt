-- ===== src/Upload/Tests.antt =====
-- An upload of three bytes that was announced as five.
use cpp_socket_programming.Text.{Text}
use cpp_socket_programming.Prelude.{◌≡◌, refl, true, List, [], ◌∷◌, ◌++◌, some, arith, length}
use cpp_socket_programming.Upload.Save.{post_request, handle_client_lem}
use cpp_socket_programming.Upload.{
  content_length_key, header_line, stoul, saves, responds, closes, handle_client,
}

-- "Content-Length: 5\r" and the empty line.
abbrev lines : List Text
lines = (content_length_key ++ (53 ∷ 13 ∷ [])) ∷ (13 ∷ []) ∷ []

stoul_signs : stoul (32 ∷ 45 ∷ 49 ∷ []) ≡ some 18446744073709551615
unfolding stoul
stoul_signs = refl

handle_client_lem_example :
    let file : Text = 97 ∷ 98 ∷ 99 ∷ 0 ∷ 0 ∷ [] in
    (handle_client (λ n. true) (λ n. 97 ∷ 98 ∷ 99 ∷ []) (post_request (47 ∷ []) (72 ∷ []) lines)
      ≡ some (saves file ∷ responds ∷ closes ∷ []))
    × (length file ≡ 5)
unfolding header_line
handle_client_lem_example =
    handle_client_lem (λ n. true) (λ n. 97 ∷ 98 ∷ 99 ∷ []) 47 72 5 97 [] [] (98 ∷ 99 ∷ []) lines
      (refl, tt) (refl, tt) (omega arith) (omega arith) refl refl refl (omega arith)
