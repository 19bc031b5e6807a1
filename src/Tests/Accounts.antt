-- ===== src/Tests/Accounts.antt =====
-- An account with a password that is its own hash, and tokens that nobody has signed.
use ipl_auction_app.Base.{
  ℕ, ◌+◌, ◌≡◌, refl, ap, arith, ltb, Bool, false, if◌then◌else◌, [], ◌∷◌, ◌++◌, length, take,
  Option, none, some,
}
use ipl_auction_app.Accounts.Text.{
  Text, same_text, to_lower_case, trim_start, trim_end, includes, slice_from,
}
use ipl_auction_app.Accounts.Users.{UserRow, Users, find_user_by_email, create_user, is_email_taken}
use ipl_auction_app.Accounts.Session.{
  Verified, decoded, token_expired, web_token_error, Jwt, week_seconds, sign_jwt, admitted, bearer,
  jwt_auth, socket_auth,
}
use ipl_auction_app.Accounts.Register.{
  Bcrypt, RegisterBody, email_exists, register, register_with, answer_written, login, logged_in,
}
use ipl_auction_app.Accounts.Laws.{same_text_refl, IsBcrypt, IsJwt, claims_of, register-login}
use ipl_auction_app.Accounts.Unique.{register-again}
use ipl_auction_app.Accounts.Unique.Writing.{here, more, inserts}

-- The first mark is a salt.
abbrev marked_compare : Text → Text → Bool
marked_compare password [] = false
marked_compare password (c ∷ cs) = same_text cs password

abbrev marking : Bcrypt
marking = record { hash = λ salt password. 36 ∷ password; compare = marked_compare }

marking-IsBcrypt : IsBcrypt marking
marking-IsBcrypt = record {
  matches = λ salt password. same_text_refl password;
  nonempty = λ salt password. refl;
}

-- A token is written out: its end, the user, and the address with its length in front of the name.
abbrev read_token : Text → ℕ → Verified
read_token (end ∷ sub ∷ n ∷ rest) now =
    if ltb now end
    then decoded (record { sub = sub; email = take n rest; username = slice_from n rest })
    else token_expired
read_token _ now = web_token_error

abbrev plain_jwt : Jwt
plain_jwt = record {
  sign = λ secret c seconds now. (now + seconds) ∷ c.sub ∷ length c.email ∷ (c.email ++ c.username);
  verify = λ secret token now. read_token token now;
}

take-append : (xs ys : Text) → take (length xs) (xs ++ ys) ≡ xs
take-append [] ys = refl
take-append (x ∷ xs) ys = ap (λ t. x ∷ t) (take-append xs ys)

slice-append : (xs ys : Text) → slice_from (length xs) (xs ++ ys) ≡ ys
unfolding slice_from
slice-append [] ys = refl
slice-append (x ∷ xs) ys = slice-append xs ys

plain_jwt-IsJwt : IsJwt plain_jwt
plain_jwt-IsJwt = record {
  valid = λ secret c seconds issued now h.
      ground (arith, h, take-append c.email c.username, slice-append c.email c.username);
  token = λ secret c seconds issued. refl;
}

-- "Al@b.co", and the same with spaces and other letters.
abbrev address : Text
address = 65 ∷ 108 ∷ 64 ∷ 98 ∷ 46 ∷ 99 ∷ 111 ∷ []

abbrev typed_address : Text
typed_address = 32 ∷ 32 ∷ 97 ∷ 76 ∷ 64 ∷ 66 ∷ 46 ∷ 99 ∷ 111 ∷ 32 ∷ []

abbrev pass_word : Text
pass_word = 115 ∷ 101 ∷ 99 ∷ 114 ∷ 101 ∷ 116 ∷ []

abbrev form : RegisterBody
form = record {
  email = some address;
  username = some (65 ∷ 108 ∷ 98 ∷ 101 ∷ 114 ∷ 116 ∷ []);
  password = some pass_word;
}

abbrev al : UserRow
al = record {
  id = 7;
  email = 97 ∷ 108 ∷ 64 ∷ 98 ∷ 46 ∷ 99 ∷ 111 ∷ [];
  username = 65 ∷ 108 ∷ 98 ∷ 101 ∷ 114 ∷ 116 ∷ [];
  password_hash = some (36 ∷ pass_word);
}

abbrev secret_key : Option Text
secret_key = some (83 ∷ [])

abbrev al_token : Text
al_token = plain_jwt.sign (83 ∷ []) (claims_of al) week_seconds 1000

register-login_example :
    (t' : Text) × (login plain_jwt marking secret_key 5000
        (some typed_address)
        (some pass_word)
        (register plain_jwt marking secret_key 1000 7 [] form []).1
      ≡ logged_in t' al)
    × (jwt_auth plain_jwt secret_key 6000 (some (bearer ++ t')) ≡ admitted (claims_of al))
    × (socket_auth plain_jwt secret_key 6000 (some t') ≡ admitted (claims_of al))
unfolding register register_with answer_written create_user is_email_taken sign_jwt includes
    to_lower_case trim_start trim_end
register-login_example =
    register-login plain_jwt marking secret_key 1000 7 [] form address typed_address pass_word
      al_token al [] 5000 6000 marking-IsBcrypt plain_jwt-IsJwt refl refl refl refl (omega arith)

abbrev after_form : Users
after_form = (register plain_jwt marking secret_key 1000 7 [] form []).1

abbrev after_race : Users
after_race = (create_user 9 typed_address (65 ∷ 66 ∷ 67 ∷ []) none after_form).1

abbrev second_form : RegisterBody
second_form = record {
  email = some typed_address;
  username = some (66 ∷ 111 ∷ 98 ∷ []);
  password = some pass_word;
}

-- An insertion of the same address in between.
register-again_example :
    ((v : UserRow) × (find_user_by_email typed_address after_race ≡ some v)
      × (v.id ≡ 7)
      × (v.password_hash ≡ some (marking.hash [] pass_word)))
    × (register plain_jwt marking secret_key 2000 8 [] second_form after_race
        ≡ (email_exists, after_race))
unfolding register register_with answer_written create_user is_email_taken sign_jwt includes
    to_lower_case trim_start trim_end
register-again_example =
    register-again plain_jwt marking secret_key 1000 7 [] form address pass_word al_token al []
      after_race 2000 8 [] second_form typed_address (66 ∷ 111 ∷ 98 ∷ []) pass_word refl refl refl
      (more here (inserts 9 typed_address (65 ∷ 66 ∷ 67 ∷ []) none after_form)) refl refl refl refl
      refl (omega arith) (omega arith)
