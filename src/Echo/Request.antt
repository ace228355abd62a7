-- ===== src/Echo/Request.antt =====
-- The request in `sendRequest`, a POST with its header.
use cpp_socket_programming.Text.{Text}
use cpp_socket_programming.Prelude.{[], ◌∷◌}

unfoldable pub request : Text
request =
    80 ∷ 79 ∷ 83 ∷ 84 ∷ 32 ∷ 47 ∷ 115 ∷ 101 ∷ 115 ∷ 115 ∷ 105 ∷ 111 ∷ 110 ∷ 47 ∷ 118 ∷ 49 ∷ 47 ∷ 108
    ∷ 111 ∷ 103 ∷ 105 ∷ 110 ∷ 45 ∷ 114 ∷ 101 ∷ 113 ∷ 117 ∷ 101 ∷ 115 ∷ 116 ∷ 63 ∷ 114 ∷ 101 ∷ 113
    ∷ 117 ∷ 101 ∷ 115 ∷ 116 ∷ 95 ∷ 105 ∷ 100 ∷ 61 ∷ 99 ∷ 100 ∷ 49 ∷ 101 ∷ 48 ∷ 97 ∷ 48 ∷ 99 ∷ 45
    ∷ 48 ∷ 49 ∷ 101 ∷ 101 ∷ 45 ∷ 52 ∷ 49 ∷ 102 ∷ 97 ∷ 45 ∷ 98 ∷ 55 ∷ 99 ∷ 51 ∷ 45 ∷ 51 ∷ 57 ∷ 102
    ∷ 51 ∷ 48 ∷ 48 ∷ 48 ∷ 54 ∷ 97 ∷ 102 ∷ 99 ∷ 55 ∷ 38 ∷ 100 ∷ 97 ∷ 116 ∷ 97 ∷ 98 ∷ 97 ∷ 115 ∷ 101
    ∷ 78 ∷ 97 ∷ 109 ∷ 101 ∷ 61 ∷ 100 ∷ 101 ∷ 109 ∷ 111 ∷ 38 ∷ 115 ∷ 99 ∷ 104 ∷ 101 ∷ 109 ∷ 97 ∷ 78
    ∷ 97 ∷ 109 ∷ 101 ∷ 61 ∷ 116 ∷ 101 ∷ 115 ∷ 116 ∷ 38 ∷ 119 ∷ 97 ∷ 114 ∷ 101 ∷ 104 ∷ 111 ∷ 117
    ∷ 115 ∷ 101 ∷ 61 ∷ 99 ∷ 111 ∷ 109 ∷ 112 ∷ 117 ∷ 116 ∷ 101 ∷ 95 ∷ 119 ∷ 104 ∷ 32 ∷ 72 ∷ 84 ∷ 84
    ∷ 80 ∷ 47 ∷ 49 ∷ 46 ∷ 49 ∷ 13 ∷ 10 ∷ 72 ∷ 111 ∷ 115 ∷ 116 ∷ 58 ∷ 32 ∷ 105 ∷ 112 ∷ 50 ∷ 52 ∷ 56
    ∷ 50 ∷ 55 ∷ 46 ∷ 97 ∷ 112 ∷ 45 ∷ 115 ∷ 111 ∷ 117 ∷ 116 ∷ 104 ∷ 101 ∷ 97 ∷ 115 ∷ 116 ∷ 45 ∷ 49
    ∷ 46 ∷ 115 ∷ 110 ∷ 111 ∷ 119 ∷ 102 ∷ 108 ∷ 97 ∷ 107 ∷ 101 ∷ 99 ∷ 111 ∷ 109 ∷ 112 ∷ 117 ∷ 116
    ∷ 105 ∷ 110 ∷ 103 ∷ 46 ∷ 99 ∷ 111 ∷ 109 ∷ 13 ∷ 10 ∷ 85 ∷ 115 ∷ 101 ∷ 114 ∷ 45 ∷ 65 ∷ 103 ∷ 101
    ∷ 110 ∷ 116 ∷ 58 ∷ 32 ∷ 80 ∷ 121 ∷ 116 ∷ 104 ∷ 111 ∷ 110 ∷ 67 ∷ 111 ∷ 110 ∷ 110 ∷ 101 ∷ 99 ∷ 116
    ∷ 111 ∷ 114 ∷ 47 ∷ 51 ∷ 46 ∷ 55 ∷ 46 ∷ 49 ∷ 32 ∷ 40 ∷ 109 ∷ 97 ∷ 99 ∷ 79 ∷ 83 ∷ 45 ∷ 49 ∷ 52
    ∷ 46 ∷ 50 ∷ 46 ∷ 49 ∷ 45 ∷ 97 ∷ 114 ∷ 109 ∷ 54 ∷ 52 ∷ 45 ∷ 97 ∷ 114 ∷ 109 ∷ 45 ∷ 54 ∷ 52 ∷ 98
    ∷ 105 ∷ 116 ∷ 41 ∷ 32 ∷ 67 ∷ 80 ∷ 121 ∷ 116 ∷ 104 ∷ 111 ∷ 110 ∷ 47 ∷ 51 ∷ 46 ∷ 49 ∷ 50 ∷ 46 ∷ 50
    ∷ 13 ∷ 10 ∷ 65 ∷ 99 ∷ 99 ∷ 101 ∷ 112 ∷ 116 ∷ 45 ∷ 69 ∷ 110 ∷ 99 ∷ 111 ∷ 100 ∷ 105 ∷ 110 ∷ 103
    ∷ 58 ∷ 32 ∷ 103 ∷ 122 ∷ 105 ∷ 112 ∷ 44 ∷ 32 ∷ 100 ∷ 101 ∷ 102 ∷ 108 ∷ 97 ∷ 116 ∷ 101 ∷ 13 ∷ 10
    ∷ 97 ∷ 99 ∷ 99 ∷ 101 ∷ 112 ∷ 116 ∷ 58 ∷ 32 ∷ 97 ∷ 112 ∷ 112 ∷ 108 ∷ 105 ∷ 99 ∷ 97 ∷ 116 ∷ 105
    ∷ 111 ∷ 110 ∷ 47 ∷ 115 ∷ 110 ∷ 111 ∷ 119 ∷ 102 ∷ 108 ∷ 97 ∷ 107 ∷ 101 ∷ 13 ∷ 10 ∷ 67 ∷ 111 ∷ 110
    ∷ 110 ∷ 101 ∷ 99 ∷ 116 ∷ 105 ∷ 111 ∷ 110 ∷ 58 ∷ 32 ∷ 107 ∷ 101 ∷ 101 ∷ 112 ∷ 45 ∷ 97 ∷ 108 ∷ 105
    ∷ 118 ∷ 101 ∷ 13 ∷ 10 ∷ 67 ∷ 111 ∷ 110 ∷ 116 ∷ 101 ∷ 110 ∷ 116 ∷ 45 ∷ 84 ∷ 121 ∷ 112 ∷ 101 ∷ 58
    ∷ 32 ∷ 97 ∷ 112 ∷ 112 ∷ 108 ∷ 105 ∷ 99 ∷ 97 ∷ 116 ∷ 105 ∷ 111 ∷ 110 ∷ 47 ∷ 106 ∷ 115 ∷ 111 ∷ 110
    ∷ 13 ∷ 10 ∷ 67 ∷ 111 ∷ 110 ∷ 116 ∷ 101 ∷ 110 ∷ 116 ∷ 45 ∷ 69 ∷ 110 ∷ 99 ∷ 111 ∷ 100 ∷ 105 ∷ 110
    ∷ 103 ∷ 58 ∷ 32 ∷ 103 ∷ 122 ∷ 105 ∷ 112 ∷ 13 ∷ 10 ∷ 67 ∷ 111 ∷ 110 ∷ 116 ∷ 101 ∷ 110 ∷ 116 ∷ 45
    ∷ 76 ∷ 101 ∷ 110 ∷ 103 ∷ 116 ∷ 104 ∷ 58 ∷ 32 ∷ 51 ∷ 53 ∷ 52 ∷ 13 ∷ 10 ∷ 65 ∷ 117 ∷ 116 ∷ 104
    ∷ 111 ∷ 114 ∷ 105 ∷ 122 ∷ 97 ∷ 116 ∷ 105 ∷ 111 ∷ 110 ∷ 58 ∷ 32 ∷ 83 ∷ 110 ∷ 111 ∷ 119 ∷ 102
    ∷ 108 ∷ 97 ∷ 107 ∷ 101 ∷ 32 ∷ 84 ∷ 111 ∷ 107 ∷ 101 ∷ 110 ∷ 61 ∷ 34 ∷ 78 ∷ 111 ∷ 110 ∷ 101 ∷ 34
    ∷ 13 ∷ 10 ∷ 13 ∷ 10 ∷ 92 ∷ 85 ∷ 48 ∷ 48 ∷ 48 ∷ 48 ∷ 48 ∷ 48 ∷ 49 ∷ []
